-- ===== src/Xpub/Settings.antt =====
-- The options of a publishing socket (src/core/xpub.cpp); EINVAL is `none`.
use serverlink.Prelude.{
  ℕ, ◌≡◌, refl, sym, ap, ◌∙◌, ==_iff, arith, leb, Bool, true, false, not, if◌then◌else◌, Option,
  none, some, Bytes, length, Bool-cases, inl, inr, Option-cases,
}
use serverlink.Prelude.Int.{ℤ, pos, negsuc}
use serverlink.Options.{is_int, int_of, int_bytes, bool_int, bool_of, set_bool, give_int}
use serverlink.Options.Values.{is_bytes, set_bool_lem}
use serverlink.Msg.{Msg}
use serverlink.Xpub.{Xpub, subscribe_last, set_welcome_msg}
use serverlink.Xpub.Table.{Subscriptions}

-- The options that are switches.
pub data Switch : Type 0 where
  verbose : Switch
  verboser : Switch
  manual_last_value : Switch
  nodrop : Switch
  manual_mode : Switch
  first_subscribe : Switch

pub data XpubOption : Type 0 where
  switch : Switch → XpubOption
  subscription : XpubOption
  unsubscription : XpubOption
  welcome_text : XpubOption
  unknown : XpubOption

-- Any number but 0 switches an option on; a negative one is refused.
abbrev pub is_on : ℤ → Option Bool
is_on (pos n) = bool_of false (pos n)
is_on (negsuc n) = none

is_on_lem : (z : ℤ) (v : Bool) → bool_of true z ≡ some v → is_on z ≡ some v
is_on_lem (pos n) v k = ground (arith, k)
is_on_lem (negsuc n) v k = cc

not-not : (v : Bool) → not (not v) ≡ v
not-not true = refl
not-not false = refl

module _ {T : Type 0} where
  unfoldable pub flip : Switch → Bool → Xpub T → Xpub T
  flip verbose v x = record x { verbose_subs = v; verbose_unsubs = false }
  flip verboser v x = record x { verbose_subs = v; verbose_unsubs = v }
  flip manual_last_value v x = record x { manual = v; send_last_pipe = v }
  flip nodrop v x = record x { lossy = not v }
  flip manual_mode v x = record x { manual = v }
  flip first_subscribe v x = record x { only_first_subscribe = v }

  abbrev pub flip_if : Switch → Option Bool → Xpub T → Option (Xpub T)
  flip_if o none x = none
  flip_if o (some v) x = some (flip o v x)

  -- SL_XPUB_NODROP, for a buffer of `len` bytes; the first four are written.
  unfoldable pub get_nodrop : ℕ → Xpub T → Option Bytes
  get_nodrop len x = if leb 4 len then some (int_bytes (bool_int (not x.lossy))) else none

module _ {T : Type 0} ⦃subs : Subscriptions T⦄ where
  unfoldable pub xsetsockopt : XpubOption → Bytes → Xpub T → Option (Xpub T)
  xsetsockopt (switch o) b x = if is_int b then flip_if o (is_on (int_of b)) x else none
  xsetsockopt subscription b x = subscribe_last true b x
  xsetsockopt unsubscription b x = subscribe_last false b x
  xsetsockopt welcome_text b x = some (set_welcome_msg b x)
  xsetsockopt unknown b x = none

  -- Whoever is told of repeated cancellations is told of repeated subscriptions.
  pub IsConsistent : Xpub T → Type 0
  IsConsistent x = x.verbose_unsubs ≡ true → x.verbose_subs ≡ true

  -- What setting an option leaves as it is.
  pub record Keeps (x y : Xpub T) : Type 0 where
    pub dist : y.dist ≡ x.dist
    pub pending : y.pending ≡ x.pending
    pub pending_pipes : y.pending_pipes ≡ x.pending_pipes
    pub last_pipe : y.last_pipe ≡ x.last_pipe
    pub manual_subscriptions : y.manual_subscriptions ≡ x.manual_subscriptions
    pub automatic : x.manual ≡ false → y.subscriptions ≡ x.subscriptions
    pub consistent : IsConsistent x → IsConsistent y

  switched-Keeps :
      (x : Xpub T) (subscribed cancelled lossy manual last first : Bool) (text : Msg)
      → (IsConsistent x → cancelled ≡ true → subscribed ≡ true)
      → Keeps x (record x {
        verbose_subs = subscribed;
        verbose_unsubs = cancelled;
        lossy = lossy;
        manual = manual;
        send_last_pipe = last;
        only_first_subscribe = first;
        welcome_msg = text;
      })
  unfolding IsConsistent
  switched-Keeps x subscribed cancelled lossy manual last first text f = record {
    dist = refl;
    pending = refl;
    pending_pipes = refl;
    last_pipe = refl;
    manual_subscriptions = refl;
    automatic = λ e. refl;
    consistent = f;
  }

  flip-Keeps : (o : Switch) (v : Bool) (x : Xpub T) → Keeps x (flip o v x)
  unfolding flip IsConsistent
  flip-Keeps verbose v x =
      switched-Keeps x v false x.lossy x.manual x.send_last_pipe x.only_first_subscribe
        x.welcome_msg (λ c e. cc)
  flip-Keeps verboser v x =
      switched-Keeps x v v x.lossy x.manual x.send_last_pipe x.only_first_subscribe x.welcome_msg
        (λ c e. e)
  flip-Keeps manual_last_value v x =
      switched-Keeps x x.verbose_subs x.verbose_unsubs x.lossy v v x.only_first_subscribe
        x.welcome_msg (λ c. c)
  flip-Keeps nodrop v x =
      switched-Keeps x x.verbose_subs x.verbose_unsubs (not v) x.manual x.send_last_pipe
        x.only_first_subscribe x.welcome_msg (λ c. c)
  flip-Keeps manual_mode v x =
      switched-Keeps x x.verbose_subs x.verbose_unsubs x.lossy v x.send_last_pipe
        x.only_first_subscribe x.welcome_msg (λ c. c)
  flip-Keeps first_subscribe v x =
      switched-Keeps x x.verbose_subs x.verbose_unsubs x.lossy x.manual x.send_last_pipe v
        x.welcome_msg (λ c. c)

  some_inj : (o : Option (Xpub T)) (x y : Xpub T) → o ≡ some x → o ≡ some y → y ≡ x
  some_inj o x y e f = cc

  flip_if-Keeps : (o : Switch) (v : Option Bool) (x y : Xpub T) → flip_if o v x ≡ some y → Keeps x y
  flip_if-Keeps o none x y e = cc
  flip_if-Keeps o (some v) x y e =
      rw (some_inj (some (flip o v x)) (flip o v x) y refl e) (flip-Keeps o v x)

  -- The table changes only while subscriptions are handled by the application.
  table-Keeps : (x : Xpub T) (t : T) → x.manual ≡ true → Keeps x (record x { subscriptions = t })
  unfolding IsConsistent
  table-Keeps x t m = record {
    dist = refl;
    pending = refl;
    pending_pipes = refl;
    last_pipe = refl;
    manual_subscriptions = refl;
    automatic = λ e. cc;
    consistent = λ c. c;
  }

  unchanged : (x : Xpub T) → Keeps x x
  unfolding IsConsistent
  unchanged x =
      switched-Keeps x x.verbose_subs x.verbose_unsubs x.lossy x.manual x.send_last_pipe
        x.only_first_subscribe x.welcome_msg (λ c. c)

  subscribe_last-Keeps :
      (subscribe : Bool) (b : Bytes) (x y : Xpub T)
      → subscribe_last subscribe b x ≡ some y
      → Keeps x y
  unfolding subscribe_last
  subscribe_last-Keeps subscribe b x y e = elim (Bool-cases x.manual) [
    | inr k ↦ absurd (ground (arith, k, e))
    | inl k ↦ elim (Option-cases x.last_pipe) [
      | inl n ↦ rw (some_inj (subscribe_last subscribe b x) x y (simp (k, n)) e) (unchanged x)
      | inr (p, n) ↦
          let t : T =
            if subscribe
            then (subs.add b p x.subscriptions).1
            else (subs.rm b p x.subscriptions).1 in
          rw
            (some_inj (subscribe_last subscribe b x) (record x { subscriptions = t }) y
              (simp (k, n)) e)
            (table-Keeps x t k)
    ]
  ]

  -- Setting an option, when it does not fail, leaves the pipes, the messages for the application and, unless
  -- the application handles the subscriptions, these too; repeated cancellations are told only where repeated
  -- subscriptions are.
  xsetsockopt-Keeps :
      (o : XpubOption) (b : Bytes) (x y : Xpub T) → xsetsockopt o b x ≡ some y → Keeps x y
  unfolding xsetsockopt set_welcome_msg IsConsistent
  xsetsockopt-Keeps (switch o) b x y e = elim (Bool-cases (is_int b)) [
    | inl k ↦ flip_if-Keeps o (is_on (int_of b)) x y (ground (arith, k, e))
    | inr k ↦ absurd (ground (arith, k, e))
  ]
  xsetsockopt-Keeps subscription b x y e = subscribe_last-Keeps true b x y e
  xsetsockopt-Keeps unsubscription b x y e = subscribe_last-Keeps false b x y e
  xsetsockopt-Keeps welcome_text b x y e = rw (some_inj _ (set_welcome_msg b x) y refl e) (
      switched-Keeps x x.verbose_subs x.verbose_unsubs x.lossy x.manual x.send_last_pipe
        x.only_first_subscribe (set_welcome_msg b x).welcome_msg (λ c. c))
  xsetsockopt-Keeps unknown b x y e = cc

  -- SL_XPUB_NODROP set to 0 or 1 is read back as the bytes that were set.
  get_nodrop-xsetsockopt :
      (b : Bytes) (v : Bool) (x y : Xpub T)
      → set_bool true b ≡ some v
      → is_bytes b ≡ true
      → xsetsockopt (switch nodrop) b x ≡ some y
      → get_nodrop 4 y ≡ some b
  unfolding xsetsockopt get_nodrop flip set_bool
  get_nodrop-xsetsockopt b v x y s h e = elim (Bool-cases (is_int b)) [
    | inr k ↦ absurd (ground (arith, k, e))
    | inl k ↦
        let on : is_on (int_of b) ≡ some v = is_on_lem (int_of b) v (ground (arith, k, s)) in
        let same : y ≡ flip nodrop v x =
          some_inj (xsetsockopt (switch nodrop) b x) (flip nodrop v x) y (rw (k, on) refl) e in
        let four : length b ≡ 4 = (==_iff (length b) 4).0 k in
        rw same (
          ap (λ w. some (int_bytes (bool_int w))) (not-not v)
          ∙ ap (λ n. give_int n (bool_int v)) (sym four)
          ∙ set_bool_lem b v s h)
  ]
