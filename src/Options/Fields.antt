-- ===== src/Options/Fields.antt =====
-- What each kind of option writes (src/core/options.cpp).
use serverlink.Prelude.{
  ℕ, ◌+◌, ◌-◌, ◌/◌, ◌≤◌, ◌≡◌, inl, inr, refl, ◌∙◌, arith, ◌==◌, leb, Bool, true, false, ◌&&◌, ◌||◌,
  if◌then◌else◌, Option, none, some, List, [], ◌∷◌, Bytes, length, Bool-cases, find, insert, take,
  drop, bytes_beq, bytes_eq,
}
use serverlink.Prelude.Int.{ℤ, pos, negsuc}
use serverlink.Options.{
  Options, is_int, find_colon, set_property, set_ttl, set_found, set_switch, insert_new,
  add_metadata, set_metadata,
}

pub guarded {ℓ} :
    {A : Type ℓ} (c : Bool) (x y : A) → (if c then some x else none) ≡ some y → (c ≡ true) × (y ≡ x)
guarded true x y e = (refl, cc)
guarded false x y e = cc

guarded_inner {ℓ} :
    {A : Type ℓ} (c d : Bool) (x y : A)
    → (if c then none else if d then some x else none) ≡ some y
    → y ≡ x
guarded_inner true d x y e = cc
guarded_inner false d x y e = (guarded d x y e).1

if_none {ℓ} :
    {A : Type ℓ} (c : Bool) (x : Option A) (y : A) → (if c then none else x) ≡ some y → x ≡ some y
if_none true x y e = cc
if_none false x y e = e

pub set_ttl_lem :
    (c : Bool) (z : ℤ) (opts opts' : Options)
    → set_ttl c z opts ≡ some opts'
    → (n : ℕ) × (n ≤ 65535) × (opts' ≡ record opts { ttl = n })
set_ttl_lem c (pos n) opts opts' e =
    let (k, same) = guarded (c && leb (n / 100) 65535) (record opts { ttl = n / 100 }) opts' e in
    (n / 100, ground (arith, k), same)
set_ttl_lem c (negsuc n) opts opts' e =
    let (k, same) = guarded (c && ((n + 1) / 100 == 0)) (record opts { ttl = 0 }) opts' e in
    (0, omega arith, same)

insert_new_lem :
    (key val : Bytes) (o : Option Bytes) (opts : Options)
    → (m : List (Bytes × Bytes)) × (insert_new key val o opts ≡ record opts { app_metadata = m })
insert_new_lem key val none opts = (insert key val opts.app_metadata, refl)
insert_new_lem key val (some v) opts = (opts.app_metadata, refl)

set_property_lem :
    (s : Bytes) (i : ℕ) (opts opts' : Options)
    → set_property s i opts ≡ some opts'
    → (m : List (Bytes × Bytes)) × (opts' ≡ record opts { app_metadata = m })
set_property_lem s i opts opts' e =
    let c : Bool = (i == 0) || (i == length s - 1) in
    let d : Bool = bytes_beq (take 2 (take i s)) (b'X' ∷ b'-' ∷ []) && leb i 255 in
    let (m, same) =
      insert_new_lem (take i s) (drop (i + 1) s) (find (take i s) opts.app_metadata) opts in
    (m, (guarded_inner c d (add_metadata (take i s) (drop (i + 1) s) opts) opts' e) ∙ same)

set_found_lem :
    (b : Bytes) (o : Option ℕ) (opts opts' : Options)
    → set_found b o opts ≡ some opts'
    → (m : List (Bytes × Bytes)) × (opts' ≡ record opts { app_metadata = m })
set_found_lem b none opts opts' e = cc
set_found_lem b (some i) opts opts' e = set_property_lem b i opts opts' e

pub set_metadata_lem :
    (b : Bytes) (opts opts' : Options)
    → set_metadata b opts ≡ some opts'
    → (m : List (Bytes × Bytes)) × (opts' ≡ record opts { app_metadata = m })
unfolding set_metadata
set_metadata_lem b opts opts' e = elim (Bool-cases ((length b == 0) || is_int b)) [
  | inl c ↦ absurd (ground (arith, c, e))
  | inr c ↦
      set_found_lem b (find_colon b) opts opts' (if_none ((length b == 0) || is_int b) _ opts' e)
]

pub set_switch_lem :
    (f : Bool → Options) (o : Option Bool) (opts' : Options)
    → set_switch f o ≡ some opts'
    → (v : Bool) × (o ≡ some v) × (opts' ≡ f v)
set_switch_lem f none opts' e = cc
set_switch_lem f (some v) opts' e = (v, refl, (guarded true (f v) opts' e).1)
