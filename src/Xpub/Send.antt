-- ===== src/Xpub/Send.antt =====
-- Publishing (src/core/xpub.cpp): the pipes that match the first part of a message are written to.
use serverlink.Prelude.{
  ℕ, ◌==◌, Bool, true, false, ◌&&◌, ◌||◌, if◌then◌else◌, none, some, List, [], ◌∷◌, Bytes,
}
use serverlink.Msg.{Msg, is_more}
use serverlink.Dist.{Dist, unmatch, match, reverse_match}
use serverlink.Dist
use serverlink.Xpub.{Xpub}
use serverlink.Xpub.Table.{Subscriptions}

abbrev pub match_all : List ℕ → Dist → Dist
match_all [] d = d
match_all (p ∷ ps) d = match_all ps (match p d)

-- `mark_last_pipe_as_matching` for each of the pipes.
abbrev pub match_last : ℕ → List ℕ → Dist → Dist
match_last l [] d = d
match_last l (p ∷ ps) d = match_last l ps (if l == p then match p d else d)

module _ {T : Type 0} where
  abbrev pub finish_send : Msg → Xpub T → Dist → Xpub T
  finish_send m x d = record x { dist = if is_more m then d else unmatch d; more_send = is_more m }

module _ {T : Type 0} ⦃subs : Subscriptions T⦄ where
  abbrev pub select_by : Bytes → Xpub T → Xpub T
  select_by topic x =
      let ps = subs.match topic x.subscriptions in
      let d = unmatch x.dist in
      if x.manual && x.send_last_pipe
      then elim x.last_pipe [
        | none ↦ record x { dist = match_all ps d }
        | some l ↦ record x { dist = match_last l ps d; last_pipe = none }
      ]
      else record x { dist = match_all ps d }

  abbrev pub select : Bytes → Xpub T → Xpub T
  select topic x =
      let y = select_by topic x in
      if x.invert_matching then record y { dist = reverse_match y.dist } else y

module _ {T S : Type 0} ⦃subs : Subscriptions T⦄ (pipe_write : ℕ → Msg → S → Bool × S)
    (pipe_flush : ℕ → S → S) (pipe_check_hwm : ℕ → S → Bool) where
  -- Nothing is dropped where a matching pipe is full, unless the socket may.
  abbrev pub transmit : Bool → Msg → Xpub T → S → ℕ → Bool × Xpub T × S × ℕ
  transmit vsm m y s refs =
      if y.lossy || Dist.check_hwm (λ p. pipe_check_hwm p s) y.dist
      then (let r = Dist.send_to_matching pipe_write pipe_flush vsm m y.dist (s, refs) in
          (true, finish_send m y r.0, r.1, r.2))
      else (false, y, s, refs)

  -- The result is whether the message was sent; otherwise it is EAGAIN. `vsm` and the number of references
  -- are those of the distributor.
  unfoldable pub xsend : Bool → Msg → Xpub T → S × ℕ → Bool × Xpub T × S × ℕ
  xsend vsm m x (s, refs) = transmit vsm m (if x.more_send then x else select m.body x) s refs
