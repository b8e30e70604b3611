-- ===== src/Examples/Bindings.antt =====
-- crates/gmr-runtime/src/read.rs at a concrete log.
use gmr.Support.{[], ◌∷◌, true, false, none, some, ◌≡◌, refl, arith}
use gmr.Support.Text.{Text, txt, text_eq, text_cmp}
use gmr.Json.{null, object, end, field, bool}
use gmr.Core.Probe.{found, contains}
use gmr.Core.Anchor.{is_terminal}
use gmr.Core.Journal.{Observation, Entry, opened, transition, AnchorState, fold}
use gmr.Store.Journal.{Table, Codec, entries}
use gmr.Store.Journal.Ordered.{IsOrdered}
use gmr.Runtime.View.{Seen, viewed}
use gmr.Runtime.Holding.{differing, added, removed, different, folded_at, holding_of}
use gmr.Runtime.Holding.Sure.{Unmoved, holding_of-Unmoved}
use gmr.Examples.Host.{flat-IsEquivalence, render}
use gmr.Examples.Flat.{hashless, nothing_found, bare_anchor, empty_object, with_null, row_at}

abbrev null_found : Observation
null_found = record nothing_found { outcome = found null }

abbrev pub opening : Entry
opening = opened (bare_anchor (txt "a") []) null_found empty_object 0

-- A move to a state that has a position, and nothing else that the first had not.
abbrev moving : Entry
moving = transition null_found (with_null (txt "position")) 0

abbrev entry_of : Text → Entry
entry_of [] = opening
entry_of body = moving

abbrev coded : Codec
coded = record {
  to_string = λ entry. none;
  from_str = λ body. some (entry_of body);
  to_value = λ entry. none;
}

abbrev two_entries : Table
two_entries = record { rows = row_at 1 (txt "a") [] ∷ row_at 2 (txt "a") (txt "m") ∷ []; last = 2 }

two_entries-IsOrdered : IsOrdered two_entries
two_entries-IsOrdered = record { ascends = (omega arith, (omega arith, omega arith)) }

abbrev pub opened_at : AnchorState
opened_at = record {
  anchor = bare_anchor (txt "a") [];
  state = empty_object;
  latest = some null_found;
  latest_seq = some 1;
  closed = false;
  faltering = none;
  last_sighting = some 0;
  entered_at = some 0;
  moved_at = some 1;
  head = 1;
  revisions = λ k. none;
}

abbrev pub no_looks : Seen
no_looks = record { sightings = 0; last_at = none }

abbrev moved_on : AnchorState
moved_on = record opened_at {
  state = with_null (txt "position");
  latest_seq = some 2;
  moved_at = some 2;
  head = 2;
}

holding_of-Unmoved_example : Unmoved opened_at moved_on
unfolding holding_of viewed folded_at entries fold differing text_eq text_cmp is_terminal contains
    render
holding_of-Unmoved_example =
    holding_of-Unmoved flat-IsEquivalence coded two_entries (txt "a") no_looks 2
      ((1, opening) ∷ (2, moving) ∷ []) 2 1 opened_at moved_on two_entries-IsOrdered refl refl refl
      refl refl

-- What two states differ in: a field that changed, one that came, and one that went.
differing_test :
    differing
      (object (field (txt "b") (bool true) (field (txt "a") null end)))
      (object (field (txt "b") (bool false) (field (txt "c") null end)))
      []
    ≡ (txt "a", removed) ∷ (txt "b", different) ∷ (txt "c", added) ∷ []
unfolding differing text_eq text_cmp render
differing_test = refl
