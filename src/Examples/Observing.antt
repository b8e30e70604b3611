-- ===== src/Examples/Observing.antt =====
-- crates/gmr-runtime/src/observe.rs, observe_into, at a concrete outcome.
use gmr.Support.{◌≡◌, refl}
use gmr.Support.Text.{txt}
use gmr.Json.{null}
use gmr.Core.Probe.{found, Derivation, Verifiability, unknown_fields}
use gmr.Core.Anchor.{digests}
use gmr.Runtime.Observe.{refused, observe_into, undigested}
use gmr.Examples.Watched.{watched}
use gmr.Examples.Host.{integers}

abbrev by_version : Derivation
by_version = record {
  version = txt "v";
  verifiability = Verifiability.closed;
  observes = unknown_fields;
}

-- An anchor that keeps digests refuses what is none.
plain_refused_test :
    observe_into (txt "e") watched (found null) by_version digests ≡ refused undigested
unfolding observe_into
plain_refused_test = refl
