-- ===== src/Auth/Exchange.antt =====
-- What one mechanism (src/auth/mechanism.cpp) writes of its properties, another reads: the same
-- properties in the same order.
use serverlink.Prelude.{
  ℕ, zero, suc, ◌-◌, ◌≤◌, ◌<◌, ◌^◌, ◌≡◌, refl, ap, ◌∙◌, ltb, Bool, true, false, if◌then◌else◌,
  Option, some, List, [], ◌∷◌, ◌++◌, append_assoc, Bytes, length, drop, arith, length-append,
  take-length_append, drop-length_append,
}
use serverlink.Wire.{put_uint32, get-put_uint32}
use serverlink.Auth.{
  Options, property_len, add_property, then_add, c_str, socket_type_name, identity_name,
  socket_type_string, is_router, add_app_metadata, app_metadata_len,
}
use serverlink.Auth.Parse.{Peer, Outcome, accepted, einval, take_property, parse_round, parse_loop}

-- The bytes of one property, and of a row of them.
abbrev pub property_bytes : Bytes → Bytes → Bytes
property_bytes name value = length name ∷ (name ++ (put_uint32 (length value) ++ value))

abbrev pub encode : List (Bytes × Bytes) → Bytes
encode [] = []
encode ((name, value) ∷ ps) = property_bytes name value ++ encode ps

abbrev pub Fits : List (Bytes × Bytes) → Type 0
Fits [] = Unit
Fits ((name, value) ∷ ps) = (length name ≤ 255) × (length value < 2 ^ 31) × Fits ps

-- What the peer makes of the properties themselves, one after the other.
abbrev pub take_on : Options → (Bool × Peer) → (Peer → Outcome × Peer) → Outcome × Peer
take_on o (true, p) more = more p
take_on o (false, p) more = (einval, p)

abbrev pub take_all_of : Options → List (Bytes × Bytes) → Peer → Outcome × Peer
take_all_of o [] p = (accepted, p)
take_all_of o ((name, value) ∷ ps) p = take_on o (take_property o name value p) (take_all_of o ps)

ltb_append : (xs ys : Bytes) → ltb (length (xs ++ ys)) (length xs) ≡ false
ltb_append xs ys = ground (arith, length-append xs ys)

drop-put_uint32 : (n : ℕ) (xs : Bytes) → drop 4 (put_uint32 n ++ xs) ≡ xs
unfolding put_uint32
drop-put_uint32 n xs = refl

length-put_uint32 : (n : ℕ) (xs : Bytes) → ltb (length (put_uint32 n ++ xs)) 4 ≡ false
unfolding put_uint32
length-put_uint32 n xs = ground arith

taken :
    (o : Options) (r : Bool × Peer) (more : Peer → Outcome × Peer)
    → (if r.0 then more r.1 else (einval, r.1)) ≡ take_on o r more
taken o (true, p) more = refl
taken o (false, p) more = refl

round_lem :
    (o : Options) (name value rest : Bytes) (p : Peer) (more : Bytes → Peer → Outcome × Peer)
    → length value < 2 ^ 31
    → parse_round o (length name) (name ++ (put_uint32 (length value) ++ (value ++ rest))) p more
      ≡ take_on o (take_property o name value p) (more rest)
unfolding parse_round
round_lem o name value rest p more h =
    let size = put_uint32 (length value) in
    rw
      (
        take-length_append name (size ++ (value ++ rest)),
        drop-length_append name (size ++ (value ++ rest)),
        ltb_append name (size ++ (value ++ rest)),
        get-put_uint32 (length value) (value ++ rest) (omega arith),
        length-put_uint32 (length value) (value ++ rest),
        drop-put_uint32 (length value) (value ++ rest),
        take-length_append value rest,
        drop-length_append value rest,
        ltb_append value rest,
      )
      (taken o (take_property o name value p) (more rest))

take_on-cong :
    (o : Options) (r : Bool × Peer) (f g : Peer → Outcome × Peer)
    → ((p : Peer) → f p ≡ g p)
    → take_on o r f ≡ take_on o r g
take_on-cong o (true, p) f g h = h p
take_on-cong o (false, p) f g h = refl

pub parse_loop-cons :
    (f : ℕ) (o : Options) (n : ℕ) (ys : Bytes) (p : Peer)
    → 0 < length ys
    → parse_loop (suc f) o (n ∷ ys) p ≡ parse_round o n ys p (parse_loop f o)
unfolding parse_loop
parse_loop-cons f o n [] p h = absurd (omega arith)
parse_loop-cons f o n (y ∷ ys) p h = refl

reassociate :
    (name value rest : Bytes)
    → property_bytes name value ++ rest
      ≡ length name ∷ (name ++ (put_uint32 (length value) ++ (value ++ rest)))
reassociate name value rest = simp (append_assoc)

length-property_bytes :
    (name value : Bytes) → length (property_bytes name value) ≡ property_len name value
unfolding put_uint32
length-property_bytes name value =
    omega (arith, length-append name (put_uint32 (length value) ++ value))

some_bytes : (name : Bytes) (n : ℕ) (xs : Bytes) → 0 < length (name ++ (put_uint32 n ++ xs))
unfolding put_uint32
some_bytes name n xs = omega (arith, length-append name (put_uint32 n ++ xs))

pub parse_loop-encode :
    (f : ℕ) (o : Options) (ps : List (Bytes × Bytes)) (p : Peer)
    → length (encode ps) ≤ f
    → Fits ps
    → parse_loop f o (encode ps) p ≡ take_all_of o ps p
parse_loop-encode zero o [] p l h = unfold parse_loop in refl
parse_loop-encode (suc f) o [] p l h = unfold parse_loop in refl
parse_loop-encode zero o ((name, value) ∷ ps) p l h = absurd (omega arith)
parse_loop-encode (suc f) o ((name, value) ∷ ps) p l h =
    let size = put_uint32 (length value) in
    ap (λ bytes. parse_loop (suc f) o bytes p) (reassociate name value (encode ps))
    ∙ parse_loop-cons f o (length name) (name ++ (size ++ (value ++ encode ps))) p
        (some_bytes name (length value) (value ++ encode ps))
    ∙ round_lem o name value (encode ps) p (parse_loop f o) h.1
    ∙ take_on-cong o (take_property o name value p) (parse_loop f o (encode ps)) (take_all_of o ps)
        (λ p'.
          parse_loop-encode f o ps p'
            (omega (arith, length-append (property_bytes name value) (encode ps))) h.2)

add_property-Fits :
    (capacity : ℕ) (name value : Bytes)
    → length name ≤ 255
    → length value < 2 ^ 31
    → property_len name value ≤ capacity
    → add_property capacity name value ≡ some (property_bytes name value)
unfolding add_property
add_property-Fits capacity name value h k l = ground arith

then_add-some :
    (capacity : ℕ) (b r : Bytes) (more : ℕ → Option Bytes)
    → more (capacity - length b) ≡ some r
    → then_add capacity (some b) more ≡ some (b ++ r)
then_add-some capacity b r more h = rw (then_add, h) refl

-- The properties that a mechanism writes: names and texts of the application as C strings.
abbrev pub app_properties : List (Bytes × Bytes) → List (Bytes × Bytes)
app_properties [] = []
app_properties ((name, value) ∷ m) = (c_str name, c_str value) ∷ app_properties m

abbrev pub properties : Options → List (Bytes × Bytes)
properties o =
    (socket_type_name, socket_type_string o.socket_type)
    ∷ (if is_router o.socket_type
        then (identity_name, o.routing_id) ∷ app_properties o.app_metadata
        else app_properties o.app_metadata)

pub added :
    (capacity : ℕ) (name value r : Bytes) (more : ℕ → Option Bytes)
    → length name ≤ 255
    → length value < 2 ^ 31
    → property_len name value ≤ capacity
    → more (capacity - property_len name value) ≡ some r
    → then_add capacity (add_property capacity name value) more
      ≡ some (property_bytes name value ++ r)
added capacity name value r more h k l e =
    ap (λ b. then_add capacity b more) (add_property-Fits capacity name value h k l)
    ∙ then_add-some capacity (property_bytes name value) r more
        (ap (λ n. more (capacity - n)) (length-property_bytes name value) ∙ e)

pub add_app_metadata-encode :
    (m : List (Bytes × Bytes)) (capacity : ℕ)
    → Fits (app_properties m)
    → app_metadata_len m ≤ capacity
    → add_app_metadata m capacity ≡ some (encode (app_properties m))
unfolding add_app_metadata app_metadata_len
add_app_metadata-encode [] capacity h l = refl
add_app_metadata-encode ((name, value) ∷ m) capacity h l =
    added capacity (c_str name) (c_str value) (encode (app_properties m)) (add_app_metadata m) h.0
      h.1 (omega arith)
      (add_app_metadata-encode m (capacity - property_len (c_str name) (c_str value)) h.2
        (omega arith))
