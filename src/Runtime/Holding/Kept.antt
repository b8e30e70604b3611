-- ===== src/Runtime/Holding/Kept.antt =====
-- crates/gmr-runtime/src/read.rs, differing: what it means that nothing has gone or changed.
use gmr.Support.{
  ℕ, zero, suc, Ordering, List, [], ◌∷◌, ◌++◌, All, true, false, any, if◌then◌else◌, ltb, length,
  Option, none, some, not, ◌≡◌, ◌⊎◌, inl, inr, Bool-cases,
}
use gmr.Support.Text.{Text, txt, text_eq, text_cmp, decimal, eq_of_text_eq}
use gmr.Json.{Platform, Items, Fields, nil, cons, end, field, array, object, Json, get}
use gmr.Core.Addr.{place, sort_by_key}
use gmr.Core.Anchor.{State}
use gmr.Runtime.Holding.{
  Divergence, is_measured, added, removed, different, Axes, below, is_position, concat_axes,
  added_fields, without_position, differing, differing_fields, differing_items, without_status,
  axes_between, measured_by_both,
}

-- What came may have come, and the status may be another.
abbrev Excused : Text × Divergence → Type 0
Excused (path, added) = Unit
Excused (path, removed) = path ≡ txt "status"
Excused (path, different) = path ≡ txt "status"

abbrev Grouped : List (Text × Axes) → Type 0
Grouped l = All (λ (g : Text × Axes). All Excused g.1) l

append-All : {A : Type 0} (P : A → Type 0) (xs ys : List A) → All P (xs ++ ys) → All P xs × All P ys
append-All P [] ys h = (tt, h)
append-All P (x ∷ xs) ys (p, h) = let (before, after) = append-All P xs ys h in ((p, before), after)

place-All :
    {A : Type 0} (P : Text × A → Type 0) (k : Text) (a : A) (l : List (Text × A))
    → All P (place k a l)
    → P (k, a) × All P l
unfolding place
place-All P k a [] h = h
place-All P k a ((j, b) ∷ l) h = go (text_cmp k j) (λ i. place-All P k a l i) h
  where
    go :
        (o : Ordering)
        → (All P (place k a l) → P (k, a) × All P l)
        → All P (elim o [ Ordering.gt ↦ (j, b) ∷ place k a l | _ ↦ (k, a) ∷ (j, b) ∷ l ])
        → P (k, a) × (P (j, b) × All P l)
    go Ordering.gt placed h = let (p, rest) = placed h.1 in (p, (h.0, rest))
    go _ placed h = h

sort-All :
    {A : Type 0} (P : Text × A → Type 0) (l : List (Text × A)) → All P (sort_by_key l) → All P l
unfolding sort_by_key
sort-All P [] h = h
sort-All P ((k, a) ∷ l) h =
    let (p, rest) = place-All P k a (sort_by_key l) h in (p, sort-All P l rest)

concat-Grouped : (l : List (Text × Axes)) → All Excused (concat_axes l) → Grouped l
unfolding concat_axes
concat-Grouped [] h = tt
concat-Grouped ((k, axes) ∷ rest) h =
    let (now, later) = append-All Excused axes (concat_axes rest) h in
    (now, concat-Grouped rest later)

module _ ⦃host : Platform⦄ where
  status-Excused : (l : Axes) → All Excused (without_status l) → All Excused l
  unfolding without_status
  status-Excused [] h = tt
  status-Excused ((path, d) ∷ l) h = elim (Bool-cases (text_eq path (txt "status"))) [
    | inl q ↦ (
      named d (eq_of_text_eq path (txt "status") q),
      status-Excused l (rw (without_status, q) at h),
    )
    | inr q ↦ let k = rw (without_status, q) at h in (k.0, status-Excused l k.1)
  ]
    where
      named : (d : Divergence) → path ≡ txt "status" → Excused (path, d)
      named added p = tt
      named removed p = p
      named different p = p

  measured-Excused :
      (l : Axes) → any (λ (a : Text × Divergence). is_measured a.1) l ≡ false → All Excused l
  unfolding is_measured
  measured-Excused [] h = tt
  measured-Excused ((path, added) ∷ l) h = (tt, measured-Excused l h)
  measured-Excused ((path, removed) ∷ l) h = cc
  measured-Excused ((path, different) ∷ l) h = cc

  mutual
    -- Everything of the first value is in the second and the same there, but for the position and
    -- the status, which stand at the root.
    pub Kept : Json → Json → Text → Type 0
    Kept (object a) (object b) path = KeptFields a b path
    Kept (array a) (array b) path = KeptItems a b zero path
    Kept before now path = (host.same before now ≡ true) ⊎ (path ≡ txt "status")

    pub KeptFields : Fields host.Number → Fields host.Number → Text → Type 0
    KeptFields end b path = Unit
    KeptFields (field k x a) b path =
        ((is_position path k ≡ true) ⊎ elim (get k b) [
          | some y ↦ Kept x y (below path k)
          | none ↦ below path k ≡ txt "status"
        ])
        × KeptFields a b path

    pub KeptItems : Items host.Number → Items host.Number → ℕ → Text → Type 0
    KeptItems nil b at path = Unit
    KeptItems (cons x a) nil at path =
        (below path (decimal at) ≡ txt "status") × KeptItems a nil (suc at) path
    KeptItems (cons x a) (cons y b) at path =
        Kept x y (below path (decimal at)) × KeptItems a b (suc at) path

  abbrev Within : Text → List (Text × Axes) → Type 0
  Within path l = All (λ (g : Text × Axes). (is_position path g.0 ≡ true) ⊎ All Excused g.1) l

  without-Within :
      (path : Text) (l : List (Text × Axes)) → Grouped (without_position path l) → Within path l
  unfolding without_position
  without-Within path [] h = tt
  without-Within path ((k, axes) ∷ l) h = elim (Bool-cases (is_position path k)) [
    | inl q ↦ (inl q, without-Within path l (rw (without_position, q) at h))
    | inr q ↦ let j = rw (without_position, q) at h in (inr j.0, without-Within path l j.1)
  ]

  same_or_status :
      (before now : Json) (path : Text)
      → All Excused (if not (host.same before now) then (path, different) ∷ [] else [])
      → (host.same before now ≡ true) ⊎ (path ≡ txt "status")
  same_or_status before now path h = elim (Bool-cases (host.same before now)) [
    | inl q ↦ inl q
    | inr q ↦ let j = rw q at h in inr j.0
  ]

  abbrev KeptField : Text → Json → Text → Option Json → Type 0
  KeptField k x path o =
      (is_position path k ≡ true)
      ⊎ elim o [ some y ↦ Kept x y (below path k) | none ↦ below path k ≡ txt "status" ]

  field-Kept :
      (k : Text) (x : Json) (path : Text) (rest : List (Text × Axes)) (o : Option Json)
      → ((y : Json) → All Excused (differing x y (below path k)) → Kept x y (below path k))
      → Within path (elim o [
        | some y ↦ (k, differing x y (below path k)) ∷ rest
        | none ↦ (k, (below path k, removed) ∷ []) ∷ rest
      ])
      → KeptField k x path o × Within path rest
  field-Kept k x path rest none kept (inl q, h) = (inl q, h)
  field-Kept k x path rest none kept (inr q, h) = (inr q.0, h)
  field-Kept k x path rest (some y) kept (inl q, h) = (inl q, h)
  field-Kept k x path rest (some y) kept (inr q, h) = (inr (kept y q), h)

  mutual
    unfolding differing differing_fields differing_items Kept KeptFields KeptItems added_fields

    differing-Kept :
        (before now : Json) (path : Text)
        → All Excused (differing before now path)
        → Kept before now path
    differing-Kept (object a) (object b) path h =
        fields-Kept a b path
          (append-All _ (differing_fields a b path) (added_fields b a path) (
            without-Within path (differing_fields a b path ++ added_fields b a path)
              (sort-All _ _ (concat-Grouped _ h)))).0
    differing-Kept (array a) (array b) path h = items-Kept a b zero path h
    differing-Kept before now path h = same_or_status before now path h

    fields-Kept :
        (a b : Fields host.Number) (path : Text)
        → Within path (differing_fields a b path)
        → KeptFields a b path
    fields-Kept end b path h = tt
    fields-Kept (field k x a) b path h =
        let (now, later) =
          field-Kept k x path (differing_fields a b path) (get k b)
            (λ y q. differing-Kept x y (below path k) q) h in
        (now, fields-Kept a b path later)

    items-Kept :
        (a b : Items host.Number) (at : ℕ) (path : Text)
        → All Excused (differing_items a b at path)
        → KeptItems a b at path
    items-Kept nil b at path h = tt
    items-Kept (cons x a) nil at path h = (h.0, items-Kept a nil (suc at) path h.1)
    items-Kept (cons x a) (cons y b) at path h =
        let (now, later) =
          append-All Excused (differing x y (below path (decimal at)))
            (differing_items a b (suc at) path) h in
        (differing-Kept x y (below path (decimal at)) now, items-Kept a b (suc at) path later)

  pub axes_between-Kept :
      (before now : State) → measured_by_both (axes_between before now) ≡ false → Kept before now []
  unfolding axes_between measured_by_both
  axes_between-Kept before now h = elim (Bool-cases (ltb 1 (length (differing before now [])))) [
    | inl q ↦
        let j = rw (axes_between, q) at h in
        differing-Kept before now []
          (status-Excused (differing before now []) (measured-Excused _ j))
    | inr q ↦
        let j = rw (axes_between, q) at h in
        differing-Kept before now [] (measured-Excused (differing before now []) j)
  ]
