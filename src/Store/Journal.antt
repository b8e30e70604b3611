-- ===== src/Store/Journal.antt =====
-- crates/gmr-store/src/journal.rs and crates/gmr-store/src/sqlite/journal.rs: the table of entries
-- of all the anchors' logs, each row linked onto the one before it.
pub mod Chain
pub mod Entries
pub mod Since
pub mod Ordered
pub mod Steady
pub mod Writers
use gmr.Support.{
  ℕ, zero, suc, ◌+◌, List, [], ◌∷◌, ◌++◌, Bool, true, false, ◌&&◌, not, Option, none, some,
  if◌then◌else◌, ◌==◌, leb, max, get_or_else,
}
use gmr.Support.Text.{Text, txt, text_eq}
use gmr.Json.{Platform, null, string, number, object, end, field, pos, Json}
use gmr.Core.Addr.{Canonical, ok, err, content_hash_of}
use gmr.Core.Journal.{Seq, Entry}

pub data Fence : Type 0 where
  unleased : Fence
  held : ℕ → Fence

-- Fence::epoch, and `unwrap_or(0)`
unfoldable pub epoch_of : Fence → ℕ
epoch_of unleased = 0
epoch_of (held n) = n

-- The column, read back.
unfoldable pub fence_at : ℕ → Fence
fence_at zero = unleased
fence_at (suc n) = held (suc n)

pub data Expected : Type 0 where
  any : Expected
  head : Seq → Expected

-- The errors that the code here makes itself, without their messages: HeadMoved, one of decoding,
-- and two of `StoreError::other`; the database's own are left out.
pub data StoreError : Type 0 where
  head_moved : Seq → Seq → StoreError
  corrupt : StoreError
  unlinked : StoreError
  unserialised : StoreError

pub data Stored {ℓ} (A : Type ℓ) : Type ℓ where
  done : A → Stored A
  failed : StoreError → Stored A

infixl 5 ◌>>=◌
abbrev pub ◌>>=◌ {ℓ κ} : {A : Type ℓ} {B : Type κ} → Stored A → (A → Stored B) → Stored B
done a >>= f = f a
failed e >>= f = failed e

-- A row of the table `journal`; `body` is the entry as text.
pub record Row : Type 0 where
  pub seq : Seq
  pub anchor : Text
  pub fence : ℕ
  pub body : Text
  pub prev : Option Text
  pub hash : Option Text

-- The rows, and the highest sequence number ever given out (AUTOINCREMENT).
pub record Table : Type 0 where
  pub rows : List Row
  pub last : Seq

unfoldable pub guard : Expected → Seq → Stored (Unit {0})
guard any at = done tt
guard (head expected) at = if expected == at then done tt else failed (head_moved expected at)

-- `COALESCE(MAX(seq), 0)` over the rows of one anchor
unfoldable pub anchor_head : Text → List Row → Seq
anchor_head anchor [] = 0
anchor_head anchor (row ∷ rows) =
    let rest = anchor_head anchor rows in
    if text_eq row.anchor anchor then max row.seq rest else rest

-- `COALESCE(MAX(seq), 0)`
unfoldable pub table_head : List Row → Seq
table_head [] = 0
table_head (row ∷ rows) = max row.seq (table_head rows)

-- The hash of the last row: the rows stand in the order of their numbers.
unfoldable pub last_hash : Option Text → List Row → Option Text
last_hash before [] = before
last_hash before (row ∷ rows) = last_hash row.hash rows

-- What serde makes of an entry: as text, and as a value.
pub record Codec ⦃host : Platform⦄ : Type 0 where
  pub to_string : Entry → Option Text
  pub from_str : Text → Option Entry
  pub to_value : Entry → Option Json

module _ ⦃host : Platform⦄ where
  hash_value : Option Text → Json
  hash_value none = null
  hash_value (some h) = string h

  stored : Canonical Text → Stored Text
  stored (ok h) = done h
  stored (err e) = failed unlinked

  linked : Option Text → Text → ℕ → Option Json → Stored Text
  unfolding hash_value stored
  linked prev anchor epoch none = failed unlinked
  linked prev anchor epoch (some entry) = stored (
      content_hash_of (
        object (
          field (txt "prev") (hash_value prev) (
            field (txt "anchor") (string anchor) (
              field (txt "fence") (number (host.from_usize epoch))
                (field (txt "entry") entry end))))))

  unfoldable pub link : Codec → Option Text → Text → Fence → Entry → Stored Text
  unfolding linked epoch_of
  link codec prev anchor fence entry = linked prev anchor (epoch_of fence) (codec.to_value entry)

  abbrev pub row_of : Table → Text → Fence → Text → Text → Row
  row_of t anchor fence body hash = record {
    seq = suc t.last;
    anchor = anchor;
    fence = epoch_of fence;
    body = body;
    prev = last_hash none t.rows;
    hash = some hash;
  }

  abbrev pub new_row : Table → Text → Fence → Text → Text → Table
  new_row t anchor fence body hash = record {
    rows = t.rows ++ row_of t anchor fence body hash ∷ [];
    last = suc t.last;
  }

  appended : Codec → Table → Text → Entry → Fence → Expected → Text → Stored (Seq × Table)
  unfolding guard anchor_head link last_hash epoch_of
  appended codec t anchor entry fence expected body =
      guard expected (anchor_head anchor t.rows) >>= λ _.
      link codec (last_hash none t.rows) anchor fence entry >>= λ hash.
      done (suc t.last, new_row t anchor fence body hash)

  -- A transaction: an error leaves the table.
  unfoldable pub append : Codec → Table → Text → Entry → Fence → Expected → Stored (Seq × Table)
  unfolding appended
  append codec t anchor entry fence expected = elim (codec.to_string entry) [
    | none ↦ failed unserialised
    | some body ↦ appended codec t anchor entry fence expected body
  ]

  decoded : Codec → Row → Stored (Seq × Entry)
  decoded codec row = elim (codec.from_str row.body) [
    | none ↦ failed corrupt
    | some entry ↦ done (row.seq, entry)
  ]

  -- `WHERE anchor = ?1 AND seq >= ?2 ORDER BY seq`
  unfoldable pub entries_of : Codec → Text → Seq → List Row → Stored (List (Seq × Entry))
  unfolding decoded
  entries_of codec anchor from [] = done []
  entries_of codec anchor from (row ∷ rows) =
      let rest = entries_of codec anchor from rows in
      if text_eq row.anchor anchor && leb from row.seq
      then (decoded codec row >>= λ e. rest >>= λ es. done (e ∷ es))
      else rest

  unfoldable pub entries : Codec → Table → Text → Seq → Stored (List (Seq × Entry))
  unfolding entries_of
  entries codec t anchor from = entries_of codec anchor from t.rows

  same_hash : Option Text → Option Text → Bool
  same_hash none none = true
  same_hash (some a) (some b) = text_eq a b
  same_hash _ _ = false

  -- The row's hash is the link of what the row holds.
  relinked : Codec → Row → Text → Stored Bool
  unfolding link fence_at
  relinked codec row hash = elim (codec.from_str row.body) [
    | none ↦ failed corrupt
    | some entry ↦
        link codec row.prev row.anchor (fence_at row.fence) entry >>= λ h. done (text_eq h hash)
  ]

  -- Does the chain break at this row? A row that no chain wrote has no hash.
  unlinks : Codec → Option Text → Row → Option Text → Stored Bool
  unfolding same_hash relinked
  unlinks codec carried row none = done false
  unlinks codec carried row (some hash) =
      if same_hash row.prev carried
      then (relinked codec row hash >>= λ fits. done (not fits))
      else done true

  -- The loop of `chain_break`.
  unfoldable pub break_from : Codec → Option Text → List Row → Stored (Option Seq)
  unfolding unlinks
  break_from codec carried [] = done none
  break_from codec carried (row ∷ rows) =
      let rest = break_from codec row.hash rows in
      unlinks codec carried row row.hash >>= λ b. if b then done (some row.seq) else rest

  unfoldable pub chain_break : Codec → Table → Stored (Option Seq)
  unfolding break_from
  chain_break codec t = break_from codec none t.rows
