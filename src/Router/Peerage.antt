-- ===== src/Router/Peerage.antt =====
-- Each peer of a socket has one id and one pipe (src/core/router.cpp, src/core/socket_base.cpp).
use serverlink.Prelude.{
  ℕ, ◌≡◌, refl, ◌∙◌, ap, inl, inr, arith, ◌==◌, ==_iff, true, false, if◌then◌else◌, none, some,
  List, [], ◌∷◌, Bytes, bytes_eq, bytes_beq, bytes_beq_iff, bytes_beq_refl, find, insert, IsMap,
  Bool-cases,
}
use serverlink.Prelude.Sets.{has}
use serverlink.Router.Table.{OutPipe, OutPipes, erase_out_pipe}

abbrev pub pipes : OutPipes → List ℕ
pipes [] = []
pipes ((id, o) ∷ m) = o.pipe ∷ pipes m

-- Every pipe has the id that it is entered under.
unfoldable pub Tagged : (ℕ → Bytes) → OutPipes → Type 0
Tagged g [] = Unit
Tagged g ((id, o) ∷ m) = (g o.pipe ≡ id) × Tagged g m

pub Tagged-find :
    (g : ℕ → Bytes) (id : Bytes) (o : OutPipe) (m : OutPipes)
    → Tagged g m
    → find id m ≡ some o
    → g o.pipe ≡ id
unfolding Tagged find
Tagged-find g id o [] t e = cc
Tagged-find g id o ((j, w) ∷ m) t e = ground (arith, bytes_beq_iff j id, Tagged-find g id o m t.1)

pub Tagged-same : (g h : ℕ → Bytes) (m : OutPipes) → ((q : ℕ) → h q ≡ g q) → Tagged g m → Tagged h m
unfolding Tagged
Tagged-same g h [] e t = tt
Tagged-same g h ((j, w) ∷ m) e t = (e w.pipe ∙ t.0, Tagged-same g h m e t.1)

pub Tagged-set :
    (g h : ℕ → Bytes) (p : ℕ) (id : Bytes) (m : OutPipes)
    → ((q : ℕ) → h q ≡ (if p == q then id else g q))
    → has (pipes m) p ≡ false
    → Tagged g m
    → Tagged h m
unfolding Tagged
Tagged-set g h p id [] e u t = tt
Tagged-set g h p id ((j, w) ∷ m) e u t = (
  ground (arith, e w.pipe, ==_iff p w.pipe, ==_iff w.pipe p, t.0),
  Tagged-set g h p id m e (ground arith) t.1,
)

pub Tagged-insert :
    (g : ℕ → Bytes) (id : Bytes) (o : OutPipe) (m : OutPipes)
    → g o.pipe ≡ id
    → Tagged g m
    → Tagged g (insert id o m)
unfolding Tagged insert
Tagged-insert g id o [] e t = (e, tt)
Tagged-insert g id o ((j, w) ∷ m) e t = ground (arith, Tagged-insert g id o m e t.1)

pub Tagged-erase :
    (g : ℕ → Bytes) (p : ℕ) (m : OutPipes) → Tagged g m → Tagged g (erase_out_pipe p m)
unfolding Tagged erase_out_pipe
Tagged-erase g p [] t = tt
Tagged-erase g p ((j, w) ∷ m) t = ground (arith, Tagged-erase g p m t.1)

-- A pipe that is entered is found under its id.
pub find-Tagged :
    (g : ℕ → Bytes) (p : ℕ) (m : OutPipes)
    → Tagged g m
    → IsMap m
    → has (pipes m) p ≡ true
    → (o : OutPipe) × (find (g p) m ≡ some o) × (o.pipe ≡ p)
unfolding Tagged find IsMap
find-Tagged g p [] t u h = ground arith
find-Tagged g p ((j, w) ∷ m) t u h = elim (Bool-cases (w.pipe == p)) [
  | inl e ↦
      let same : w.pipe ≡ p = (==_iff w.pipe p).0 e in
      (w, ground (arith, ap g same, t.0, bytes_beq_iff j (g p), bytes_beq_refl j), same)
  | inr e ↦
      let (o, f, k) = find-Tagged g p m t.1 u.1 (ground (arith, e, h)) in
      (
        o,
        ground (
          arith,
          f,
          u.0,
          (bytes_beq_iff j (g p)).0,
          ap (λ i. find i m),
          Bool-cases (bytes_beq j (g p)),
        ),
        k,
      )
]

unentered :
    (g : ℕ → Bytes) (p : ℕ) (m : OutPipes)
    → Tagged g m
    → IsMap m
    → find (g p) m ≡ none
    → has (pipes m) p ≡ false
unentered g p m t u e = elim (Bool-cases (has (pipes m) p)) [
  | inl h ↦ (let (o, f, k) = find-Tagged g p m t u h in cc)
  | inr h ↦ h
]

pub find-erase_other :
    (id : Bytes) (p : ℕ) (m : OutPipes) → find id m ≡ none → find id (erase_out_pipe p m) ≡ none
unfolding find erase_out_pipe
find-erase_other id p [] h = refl
find-erase_other id p ((j, w) ∷ m) h = ground (arith, find-erase_other id p m)

pub erase-IsMap : (p : ℕ) (m : OutPipes) → IsMap m → IsMap (erase_out_pipe p m)
unfolding IsMap erase_out_pipe
erase-IsMap p [] u = tt
erase-IsMap p ((j, w) ∷ m) u = ground (arith, erase-IsMap p m u.1, find-erase_other j p m u.0)

-- The pipes but one.
pub has-erase_out_pipe :
    (g : ℕ → Bytes) (p q : ℕ) (m : OutPipes)
    → Tagged g m
    → IsMap m
    → has (pipes (erase_out_pipe p m)) q ≡ (if p == q then false else has (pipes m) q)
unfolding Tagged IsMap erase_out_pipe
has-erase_out_pipe g p q [] t u = ground arith
has-erase_out_pipe g p q ((j, w) ∷ m) t u = elim (Bool-cases (w.pipe == p)) [
  | inl e ↦
      let out = unentered g w.pipe m t.1 u.1 (ap (λ i. find i m) t.0 ∙ u.0) in
      let same : w.pipe ≡ p = (==_iff w.pipe p).0 e in
      ground
        (arith, e, ap (has (pipes m)) same, out, ==_iff p q, λ (x : p ≡ q). ap (has (pipes m)) x)
  | inr e ↦
      ground
        (arith, e, ==_iff w.pipe p, ==_iff w.pipe q, ==_iff p q, has-erase_out_pipe g p q m t.1 u.1)
]

pub has-insert :
    (q : ℕ) (id : Bytes) (o : OutPipe) (m : OutPipes)
    → find id m ≡ none
    → has (pipes (insert id o m)) q ≡ (if o.pipe == q then true else has (pipes m) q)
unfolding find insert
has-insert q id o [] h = refl
has-insert q id o ((j, w) ∷ m) h = ground (arith, has-insert q id o m)

-- The entry of a pipe that goes is not found any more.
pub find-erase_out_pipe :
    (g : ℕ → Bytes) (id : Bytes) (o : OutPipe) (m : OutPipes)
    → Tagged g m
    → IsMap m
    → find id m ≡ some o
    → find id (erase_out_pipe o.pipe m) ≡ none
unfolding Tagged IsMap find erase_out_pipe
find-erase_out_pipe g id o [] t u h = refl
find-erase_out_pipe g id o ((j, w) ∷ m) t u h = elim (Bool-cases (bytes_beq j id)) [
  | inl e ↦
      let same : j ≡ id = (bytes_beq_iff j id).0 e in
      ground (arith, e, ap (λ i. find i m) same, u.0)
  | inr e ↦ ground (
    arith,
    e,
    find-erase_out_pipe g id o m t.1 u.1,
    Tagged-find g id o m t.1,
    ap g,
    bytes_beq_iff j id,
    ==_iff w.pipe o.pipe,
  )
]

pub entered_pipe :
    (id : Bytes) (o : OutPipe) (m : OutPipes) → find id m ≡ some o → has (pipes m) o.pipe ≡ true
unfolding find
entered_pipe id o [] h = cc
entered_pipe id o ((j, w) ∷ m) h = ground (arith, entered_pipe id o m, ==_iff w.pipe o.pipe)
