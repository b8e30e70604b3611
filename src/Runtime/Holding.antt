-- ===== src/Runtime/Holding.antt =====
-- crates/gmr-runtime/src/read.rs, holding: whether what was bound to an anchor still holds.
pub mod Kept
pub mod Sure
use gmr.Support.{
  ℕ, zero, suc, List, [], ◌∷◌, ◌++◌, Bool, true, false, not, ◌&&◌, Option, none, some, any, map,
  length, if◌then◌else◌, leb, ltb,
}
use gmr.Support.Text.{Text, txt, text_eq, decimal}
use gmr.Json.{Platform, Items, Fields, array, object, nil, cons, end, field, Json, get}
use gmr.Core.Addr.{sort_by_key}
use gmr.Core.Probe.{Derivation}
use gmr.Core.Anchor.{State, hash_at}
use gmr.Core.Journal.{Seq, Observation, Entry, AnchorState, fold}
use gmr.Store.Journal.{Stored, done, ◌>>=◌, Table, Codec, entries}
use gmr.Runtime.View.{Presence, AnchorView}

pub data Divergence : Type 0 where
  added removed different : Divergence

-- gmr-core/src/rests.rs
pub record Footprint : Type 0 where
  pub path : Text
  pub hash : Text

pub data Holding : Type 0 where
  holds finished absent never_established undated : Holding
  moved : List Text → Seq → Holding
  incomparable : Text → Text → Holding

abbrev pub Axes : Type 0
Axes = List (Text × Divergence)

-- The path of a step below another.
abbrev pub below : Text → Text → Text
below [] step = step
below (c ∷ path) step = (c ∷ path) ++ b'.' ∷ step

abbrev pub is_root : Text → Bool
is_root [] = true
is_root (c ∷ path) = false

unfoldable pub concat_axes : List (Text × Axes) → Axes
concat_axes [] = []
concat_axes ((k, axes) ∷ rest) = axes ++ concat_axes rest

module _ ⦃host : Platform⦄ where
  -- What stands at a key of the second object and not of the first.
  unfoldable pub added_fields : Fields host.Number → Fields host.Number → Text → List (Text × Axes)
  unfolding get
  added_fields end a path = []
  added_fields (field k y b) a path =
      let rest = added_fields b a path in
      elim (get k a) [ some x ↦ rest | none ↦ (k, (below path k, added) ∷ []) ∷ rest ]

  unfoldable pub added_items : Items host.Number → ℕ → Text → Axes
  unfolding decimal
  added_items nil at path = []
  added_items (cons y ys) at path = (below path (decimal at), added) ∷ added_items ys (suc at) path

  -- POSITION, at the root
  abbrev pub is_position : Text → Text → Bool
  is_position path k = is_root path && text_eq k (txt "position")

  unfoldable pub without_position : Text → List (Text × Axes) → List (Text × Axes)
  without_position path [] = []
  without_position path ((k, axes) ∷ rest) =
      let others = without_position path rest in
      if is_position path k then others else (k, axes) ∷ others

  -- No key stands twice in an object: the keys of both, in order, are those of the first with the
  -- others of the second, sorted.
  unfoldable mutual
    unfolding added_fields added_items without_position concat_axes sort_by_key get decimal

    -- `differing`: what it pushes
    pub differing : Json → Json → Text → Axes
    differing (object a) (object b) path =
        concat_axes
          (sort_by_key (without_position path (differing_fields a b path ++ added_fields b a path)))
    differing (array a) (array b) path = differing_items a b zero path
    differing before now path = if not (host.same before now) then (path, different) ∷ [] else []

    pub differing_fields : Fields host.Number → Fields host.Number → Text → List (Text × Axes)
    differing_fields end b path = []
    differing_fields (field k x a) b path =
        let rest = differing_fields a b path in
        elim (get k b) [
          | some y ↦ (k, differing x y (below path k)) ∷ rest
          | none ↦ (k, (below path k, removed) ∷ []) ∷ rest
        ]

    pub differing_items : Items host.Number → Items host.Number → ℕ → Text → Axes
    differing_items nil b at path = added_items b at path
    differing_items (cons x a) nil at path =
        (below path (decimal at), removed) ∷ differing_items a nil (suc at) path
    differing_items (cons x a) (cons y b) at path =
        differing x y (below path (decimal at)) ++ differing_items a b (suc at) path

  unfoldable pub without_status : Axes → Axes
  without_status [] = []
  without_status ((path, d) ∷ axes) =
      let rest = without_status axes in
      if text_eq path (txt "status") then rest else (path, d) ∷ rest

  unfoldable pub axes_between : State → State → Axes
  unfolding differing without_status
  axes_between before now =
      let out = differing before now [] in if ltb 1 (length out) then without_status out else out

  unfoldable pub is_measured : Divergence → Bool
  is_measured added = false
  is_measured _ = true

  unfoldable pub measured_by_both : Axes → Bool
  unfolding is_measured
  measured_by_both axes = any (λ (a : Text × Divergence). is_measured a.1) axes

  abbrev pub names : Axes → List Text
  names axes = map (λ (a : Text × Divergence). a.0) axes

  -- `entries[..partition_point(seq <= at)]`: the entries' numbers rise.
  unfoldable pub entries_upto : Seq → List (Seq × Entry) → List (Seq × Entry)
  entries_upto at [] = []
  entries_upto at ((seq, e) ∷ es) =
      let rest = entries_upto at es in if leb seq at then (seq, e) ∷ rest else []

  unfoldable pub folded_at : List (Seq × Entry) → Seq → Option AnchorState
  unfolding entries_upto
  folded_at es at = fold (entries_upto at es)

  same_text : Option Text → Text → Bool
  same_text none h = false
  same_text (some g) h = text_eq g h

  unfoldable pub moved_paths : State → List Footprint → List Text
  unfolding same_text hash_at
  moved_paths now [] = []
  moved_paths now (f ∷ footprints) =
      let rest = moved_paths now footprints in
      if same_text (hash_at now f.path) f.hash then rest else f.path ∷ rest

  moved_or_holds : List Text → Seq → Holding
  moved_or_holds [] at = holds
  moved_or_holds (a ∷ axes) at = moved (a ∷ axes) at

  unfoldable pub underfoot : State → List Footprint → Seq → Holding
  unfolding moved_or_holds moved_paths
  underfoot now footprints at = moved_or_holds (moved_paths now footprints) at

  version_in : Option Observation → Option Text
  version_in none = none
  version_in (some o) = some o.versions.derivation.version

  version_of : Option Derivation → Option Text
  version_of none = none
  version_of (some d) = some d.version

  compared : Option Text → Option Text → Axes → Seq → Holding
  unfolding measured_by_both
  compared (some took) (some reads) axes at =
      if text_eq took reads
      then moved (names axes) at
      else if measured_by_both axes
      then incomparable took reads
      else holds
  compared _ _ axes at = moved (names axes) at

  folded_axes : AnchorState → AnchorView → Seq → Axes → Holding
  unfolding compared version_in version_of
  folded_axes before view at [] = holds
  folded_axes before view at (a ∷ axes) =
      compared (version_in before.latest) (version_of view.derivation) (a ∷ axes) at

  folded_from : Option AnchorState → AnchorView → Seq → Holding
  unfolding folded_axes axes_between
  folded_from none view at = never_established
  folded_from (some before) view at =
      folded_axes before view at (axes_between before.state view.state)

  unfoldable pub folded : List (Seq × Entry) → Seq → AnchorView → Seq → Holding
  unfolding folded_from folded_at
  folded es bound view at = folded_from (folded_at es bound) view at

  module _ (codec : Codec) (t : Table) (key : Text) where
    dated : Seq → Seq → AnchorView → List Footprint → Stored Holding
    unfolding folded underfoot entries
    dated bound at view [] =
        if leb at bound
        then done holds
        else (entries codec t key 0 >>= λ es. done (folded es bound view at))
    dated bound at view (f ∷ footprints) =
        if leb at bound then done holds else done (underfoot view.state (f ∷ footprints) at)

    undated_or : Option Seq → Option Seq → AnchorView → List Footprint → Stored Holding
    unfolding dated
    undated_or (some bound) (some at) view footprints = dated bound at view footprints
    undated_or _ _ view footprints = done undated

    present : Presence → Option Seq → AnchorView → Option Seq → List Footprint → Stored Holding
    unfolding undated_or
    present Presence.absent bound view at footprints = done absent
    present Presence.found bound view at footprints = undated_or bound at view footprints

    -- `holding`: of what was bound at `bound`, by a view of an anchor that last moved at `at`
    unfoldable pub holding_of :
        Option Seq → AnchorView → Option Seq → List Footprint → Stored Holding
    unfolding present
    holding_of bound view at footprints =
        if view.closed then done finished else present view.sighting bound view at footprints
