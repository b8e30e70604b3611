-- ===== src/Runtime/Holding/Sure.antt =====
-- crates/gmr-runtime/src/read.rs, holding: what is meant by an answer that it holds.
use gmr.Support.{
  ℕ, ◌≤◌, ◌<◌, [], ◌∷◌, ◌++◌, true, false, Option, none, some, if◌then◌else◌, if_false, leb, ◌≡◌,
  refl, ap, sym, ◌∙◌, subst, ◌⊎◌, inl, inr, arith, Bool-cases,
}
use gmr.Support.Text.{Text, text_eq}
use gmr.Json.{Platform}
use gmr.Core.Journal.{Seq, AnchorState, fold}
use gmr.Core.Journal.Moves.{IsEquivalence, After, state_since_moved}
use gmr.Store.Journal.{done, Table, Codec, entries}
use gmr.Store.Journal.Entries.{Log}
use gmr.Store.Journal.Ordered.{IsOrdered, Rising, entries-Rising}
use gmr.Runtime.View.{Presence, AnchorView, Seen, viewed}
use gmr.Runtime.Holding.Kept.{Kept, axes_between-Kept}
use gmr.Runtime.Holding.{
  Holding, holds, Axes, axes_between, measured_by_both, entries_upto, folded_at, compared,
  folded_axes, folded_from, folded, version_in, version_of, dated, undated_or, present, holding_of,
}

module _ ⦃host : Platform⦄ where
  unfoldable rest_after : Seq → Log → Log
  rest_after n [] = []
  rest_after n ((seq, e) ∷ es) =
      let rest = rest_after n es in if leb seq n then rest else (seq, e) ∷ es

  upto-rest : (n : Seq) (es : Log) → entries_upto n es ++ rest_after n es ≡ es
  unfolding entries_upto rest_after
  upto-rest n [] = refl
  upto-rest n ((seq, e) ∷ es) = elim (Bool-cases (leb seq n)) [
    | inl q ↦ rw (entries_upto, rest_after, q) (ap (λ (l : Log). (seq, e) ∷ l) (upto-rest n es))
    | inr q ↦ rw (entries_upto, rest_after, q) refl
  ]

  all-After : (m low high : Seq) (es : Log) → m ≤ low → Rising low es high → After m es
  all-After m low high [] h r = tt
  all-After m low high ((seq, e) ∷ es) h r =
      let lt : m < seq = omega (arith, r.0) in (lt, all-After m seq high es (omega (arith, lt)) r.1)

  rest-After :
      (m n low high : Seq) (es : Log) → m ≤ n → Rising low es high → After m (rest_after n es)
  unfolding rest_after
  rest-After m n low high [] h r = tt
  rest-After m n low high ((seq, e) ∷ es) h r = elim (Bool-cases (leb seq n)) [
    | inl q ↦ rw (rest_after, q) (rest-After m n seq high es h r.1)
    | inr q ↦
        let lt : m < seq = ground arith in
        rw (rest_after, q) (lt, all-After m seq high es (omega (arith, lt)) r.1)
  ]

  -- The state at the binding is the present one, or keeps all that it had.
  abbrev pub Unmoved : AnchorState → AnchorState → Type 0
  Unmoved a s = (host.same a.state s.state ≡ true) ⊎ Kept a.state s.state []

  compared_holds :
      (took reads : Option Text) (axes : Axes) (at : Seq)
      → compared took reads axes at ≡ holds
      → measured_by_both axes ≡ false
  unfolding compared
  compared_holds none reads axes at h = cc
  compared_holds (some a) none axes at h = cc
  compared_holds (some a) (some b) axes at h = elim (Bool-cases (text_eq a b)) [
    | inl q ↦ let k = rw (compared, q) at h in cc
    | inr q ↦ elim (Bool-cases (measured_by_both axes)) [
      | inl r ↦ let k = rw (compared, q, r) at h in cc
      | inr r ↦ r
    ]
  ]

  axes_holds :
      (before : AnchorState) (view : AnchorView) (at : Seq) (axes : Axes)
      → folded_axes before view at axes ≡ holds
      → measured_by_both axes ≡ false
  unfolding folded_axes measured_by_both
  axes_holds before view at [] h = refl
  axes_holds before view at (a ∷ axes) h =
      compared_holds (version_in before.latest) (version_of view.derivation) (a ∷ axes) at h

  from_holds :
      (o : Option AnchorState) (view : AnchorView) (at : Seq) (a : AnchorState)
      → o ≡ some a
      → folded_from o view at ≡ holds
      → measured_by_both (axes_between a.state view.state) ≡ false
  unfolding folded_from
  from_holds none view at a p h = cc
  from_holds (some b) view at a p h =
      let same : b ≡ a = cc in
      subst (λ (x : AnchorState). measured_by_both (axes_between x.state view.state) ≡ false) same
        (axes_holds b view at (axes_between b.state view.state) h)

  module _ (equal : IsEquivalence) where
    since_bound :
        (es : Log) (last m bound : Seq) (a s : AnchorState)
        → Rising 0 es last
        → fold es ≡ some s
        → s.moved_at ≡ some m
        → m ≤ bound
        → folded_at es bound ≡ some a
        → host.same a.state s.state ≡ true
    unfolding folded_at
    since_bound es last m bound a s r p at le q =
        state_since_moved equal (entries_upto bound es) (rest_after bound es) m q
          (ap fold (upto-rest bound es) ∙ p) at (rest-After m bound 0 last es le r)

    module _ (codec : Codec) (t : Table) (key : Text) (looks : Seen) (logged : ℕ) where
      abbrev view_of : AnchorState → AnchorView
      view_of s = (viewed s key looks logged).0

      dated_holds :
          (es : Log) (m bound : Seq) (a s : AnchorState)
          → IsOrdered t
          → entries codec t key 0 ≡ done es
          → fold es ≡ some s
          → s.moved_at ≡ some m
          → folded_at es bound ≡ some a
          → dated codec t key bound m (view_of s) [] ≡ done holds
          → Unmoved a s
      unfolding dated folded viewed
      dated_holds es m bound a s ok read p at q h = elim (Bool-cases (leb m bound)) [
        | inl k ↦ inl (
            since_bound es t.last m bound a s (entries-Rising codec t key 0 es ok read) p at
              (ground arith) q)
        | inr k ↦ inr (
            axes_between-Kept a.state s.state (
              from_holds (folded_at es bound) (view_of s) m a q
                (held (rw (dated, k, read, folded) at h))))
      ]
        where
          held : {x : Holding} → done x ≡ done holds → x ≡ holds
          held h = cc

      -- Where the anchor's log is read and folded whole, an answer that what was bound to the anchor
      -- holds means this of the state that the log stood at when it was bound: the present one equals
      -- it, or has every part of it, at any depth and place, with the same value there, the parts named
      -- `position` and `status` at the root aside; an empty key does not lead away from the root.
      pub holding_of-Unmoved :
          (es : Log) (m bound : Seq) (a s : AnchorState)
          → IsOrdered t
          → entries codec t key 0 ≡ done es
          → fold es ≡ some s
          → s.moved_at ≡ some m
          → folded_at es bound ≡ some a
          → holding_of codec t key (some bound) (viewed s key looks logged).0 s.moved_at []
            ≡ done holds
          → Unmoved a s
      unfolding holding_of present undated_or
      holding_of-Unmoved es m bound a s ok read p at q h = elim (Bool-cases (view_of s).closed) [
        | inl c ↦ let k = rw (holding_of, c) at h in cc
        | inr c ↦ dated_holds es m bound a s ok read p at q (
            found_then (view_of s).sighting (
              ap (λ o. present codec t key (view_of s).sighting (some bound) (view_of s) o [])
                (sym at)
              ∙ (sym (if_false (view_of s).closed _ _ c) ∙ h)))
      ]
        where
          found_then :
              (presence : Presence)
              → present codec t key presence (some bound) (view_of s) (some m) [] ≡ done holds
              → dated codec t key bound m (view_of s) [] ≡ done holds
          found_then Presence.absent h = cc
          found_then Presence.found h = h
