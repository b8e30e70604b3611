-- ===== src/Examples/Watched.antt =====
-- An anchor, what is observed of it, and its states.
use gmr.Support.{[], ◌∷◌, Bool, false, none, some}
use gmr.Support.Text.{Text, txt}
use gmr.Json.{null, bool, string, object, end, field, Json}
use gmr.Core.Probe.{Verifiability, found, unknown_fields}
use gmr.Core.Anchor.{Rule, Anchor}
use gmr.Core.Journal.{Observation, AnchorState}
use gmr.Examples.Host.{integers}

abbrev pub rule_of : Text → Text → Rule
rule_of when to = record {
  when = record { source = when; hash = [] };
  to = record { source = to; hash = [] };
}

abbrev pub watched : Anchor
watched = record {
  key = txt "a";
  probe = record { kind = txt "shell"; name = txt "p"; params = null };
  transitions = rule_of (txt "obs.done") (txt "{ status: \"settled\" }") ∷ [];
  terminal = txt "settled" ∷ [];
  supersedes = none;
}

abbrev pub done_is : Bool → Observation
done_is b = record {
  outcome = found (object (field (txt "done") (bool b) end));
  fact_address = [];
  versions = record {
    declaration = [];
    derivation = record {
      version = [];
      verifiability = Verifiability.closed;
      observes = unknown_fields;
    };
    evaluator = [];
  };
}

abbrev pub in_status : Text → Json
in_status s = object (field (txt "status") (string s) end)

abbrev pub just_opened : AnchorState
just_opened = record {
  anchor = watched;
  state = in_status (txt "waiting");
  latest = some (done_is false);
  latest_seq = some 1;
  closed = false;
  faltering = none;
  last_sighting = some 10;
  entered_at = some 10;
  moved_at = some 1;
  head = 1;
  revisions = λ k. none;
}
