-- ===== src/Store/Journal/Chain.antt =====
-- crates/gmr-store/src/sqlite/journal.rs, append and chain_break: appending keeps the chain whole.
use gmr.Support.{
  zero, suc, List, [], ◌∷◌, ◌++◌, Bool, true, false, Option, none, some, ◌≡◌, refl, ap, subst, ◌∙◌,
  Option-cases, inl, inr,
}
use gmr.Support.Text.{Text, text_eq_refl}
use gmr.Json.{Platform}
use gmr.Core.Journal.{Seq, Entry}
use gmr.Store.Journal.{
  Fence, unleased, held, epoch_of, fence_at, Expected, Stored, done, failed, Row, Table, guard,
  anchor_head, last_hash, Codec, link, linked, new_row, appended, append, same_hash, relinked,
  unlinks, row_of, break_from, chain_break,
}

module _ ⦃host : Platform⦄ where
  -- The text of this entry, if it has one, reads back as it. serde_json, without its feature
  -- float_roundtrip, does not give this for entries that hold some floats.
  abbrev pub ReadsBack : Codec → Entry → Type 0
  ReadsBack codec entry =
      (body : Text) → codec.to_string entry ≡ some body → codec.from_str body ≡ some entry

  -- What an append does, where it does anything.
  abbrev pub Appends : Codec → Table → Text → Entry → Fence → Expected → Seq → Table → Type 0
  Appends codec t anchor entry fence expected seq t' =
      (body : Text) × (hash : Text) × (codec.to_string entry ≡ some body)
      × (guard expected (anchor_head anchor t.rows) ≡ done tt)
      × (link codec (last_hash none t.rows) anchor fence entry ≡ done hash)
      × (suc t.last ≡ seq)
      × (new_row t anchor fence body hash ≡ t')

  appended-Appends :
      (codec : Codec) (t : Table) (anchor : Text) (entry : Entry) (fence : Fence)
      (expected : Expected) (body : Text) (passes : Stored (Unit {0})) (hashes : Stored Text)
      (seq : Seq) (t' : Table)
      → codec.to_string entry ≡ some body
      → guard expected (anchor_head anchor t.rows) ≡ passes
      → link codec (last_hash none t.rows) anchor fence entry ≡ hashes
      → appended codec t anchor entry fence expected body ≡ done (seq, t')
      → Appends codec t anchor entry fence expected seq t'
  unfolding appended
  appended-Appends codec t anchor entry fence expected body (failed e) hashes seq t' p q r h =
      let e = rw (q, appended) at h in cc
  appended-Appends codec t anchor entry fence expected body (done _) (failed e) seq t' p q r h =
      let e = rw (q, r, appended) at h in cc
  appended-Appends codec t anchor entry fence expected body (done _) (done hash) seq t' p q r h =
      let e = rw (q, r, appended) at h in (body, hash, p, q, r, cc, cc)

  pub append-Appends :
      (codec : Codec) (t : Table) (anchor : Text) (entry : Entry) (fence : Fence)
      (expected : Expected) (seq : Seq) (t' : Table)
      → append codec t anchor entry fence expected ≡ done (seq, t')
      → Appends codec t anchor entry fence expected seq t'
  unfolding append
  append-Appends codec t anchor entry fence expected seq t' h =
      elim (Option-cases (codec.to_string entry)) [
        | inl e ↦ cc (rw (e, append) at h)
        | inr (body, e) ↦
            appended-Appends codec t anchor entry fence expected body _ _ seq t' e refl refl
              (rw (e, append) at h)
      ]

  fence_at-epoch : (fence : Fence) → epoch_of (fence_at (epoch_of fence)) ≡ epoch_of fence
  unfolding epoch_of fence_at
  fence_at-epoch unleased = refl
  fence_at-epoch (held zero) = refl
  fence_at-epoch (held (suc n)) = refl

  link-fence_at :
      (codec : Codec) (prev : Option Text) (anchor : Text) (fence : Fence) (entry : Entry)
      → link codec prev anchor (fence_at (epoch_of fence)) entry
        ≡ link codec prev anchor fence entry
  unfolding link
  link-fence_at codec prev anchor fence entry =
      ap (λ n. linked prev anchor n (codec.to_value entry)) (fence_at-epoch fence)

  same_hash_refl : (h : Option Text) → same_hash h h ≡ true
  unfolding same_hash
  same_hash_refl none = refl
  same_hash_refl (some a) = text_eq_refl a

  relinked-new :
      (codec : Codec) (row : Row) (fence : Fence) (entry : Entry) (hash : Text)
      → row.fence ≡ epoch_of fence
      → codec.from_str row.body ≡ some entry
      → link codec row.prev row.anchor fence entry ≡ done hash
      → relinked codec row hash ≡ done true
  unfolding relinked
  relinked-new codec row fence entry hash p q r =
      rw (q, relinked, p, link-fence_at codec row.prev row.anchor fence entry, r)
        (ap done (text_eq_refl hash))

  -- A row that a whole chain begins with is passed over, whatever follows it.
  past :
      (codec : Codec) (carried : Option Text) (r : Row) (rows more : List Row) (b : Stored Bool)
      → unlinks codec carried r r.hash ≡ b
      → break_from codec carried (r ∷ rows) ≡ done none
      → (break_from codec r.hash rows ≡ done none)
        × (break_from codec carried (r ∷ more) ≡ break_from codec r.hash more)
  unfolding break_from
  past codec carried r rows more (failed e) q h = let k = rw (break_from, q) at h in cc
  past codec carried r rows more (done true) q h = let k = rw (break_from, q) at h in cc
  past codec carried r rows more (done false) q h =
      (rw (break_from, q) at h, rw (break_from, q) refl)

  -- Where no row breaks the chain, what stands at its end decides.
  break_from-snoc :
      (codec : Codec) (carried : Option Text) (rows : List Row) (row : Row)
      → break_from codec carried rows ≡ done none
      → break_from codec carried (rows ++ row ∷ [])
        ≡ break_from codec (last_hash carried rows) (row ∷ [])
  unfolding break_from last_hash
  break_from-snoc codec carried [] row h = refl
  break_from-snoc codec carried (r ∷ rows) row h =
      let (whole, go) =
        past codec carried r rows (rows ++ row ∷ []) (unlinks codec carried r r.hash) refl h in
      go ∙ break_from-snoc codec r.hash rows row whole

  one :
      (codec : Codec) (t : Table) (anchor : Text) (fence : Fence) (entry : Entry) (body hash : Text)
      → codec.from_str body ≡ some entry
      → link codec (last_hash none t.rows) anchor fence entry ≡ done hash
      → break_from codec (last_hash none t.rows) (row_of t anchor fence body hash ∷ []) ≡ done none
  unfolding break_from unlinks
  one codec t anchor fence entry body hash p q =
      rw
        (
          same_hash_refl (last_hash none t.rows),
          relinked-new codec (row_of t anchor fence body hash) fence entry hash refl p q,
        )
        refl

  last_link :
      (codec : Codec) (t : Table) (anchor : Text) (fence : Fence) (entry : Entry) (body hash : Text)
      → codec.from_str body ≡ some entry
      → link codec (last_hash none t.rows) anchor fence entry ≡ done hash
      → break_from codec none t.rows ≡ done none
      → break_from codec none (new_row t anchor fence body hash).rows ≡ done none
  last_link codec t anchor fence entry body hash p q h =
      break_from-snoc codec none t.rows _ h ∙ one codec t anchor fence entry body hash p q

  -- An append that succeeds keeps an unbroken chain unbroken, where the text of the entry reads
  -- back as it.
  pub chain_break-append :
      (codec : Codec) (t t' : Table) (anchor : Text) (entry : Entry) (fence : Fence)
      (expected : Expected) (seq : Seq)
      → ReadsBack codec entry
      → chain_break codec t ≡ done none
      → append codec t anchor entry fence expected ≡ done (seq, t')
      → chain_break codec t' ≡ done none
  unfolding chain_break
  chain_break-append codec t t' anchor entry fence expected seq trips h k =
      let (body, hash, p, q, r, _, made) =
        append-Appends codec t anchor entry fence expected seq t' k in
      subst (λ (u : Table). break_from codec none u.rows ≡ done none) made
        (last_link codec t anchor fence entry body hash (trips body p) r h)
