-- ===== src/Examples/Journeys.antt =====
-- crates/gmr-runtime at a concrete deployment: opening, observing, revising and closing.
use gmr.Support.{[], ◌∷◌, false, Option, none, some, ◌≡◌, refl}
use gmr.Support.Text.{txt, text_eq, text_cmp}
use gmr.Json.{insert}
use gmr.Expr.Parse.{parse}
use gmr.Expr.Eval.{eval}
use gmr.Core.Addr.{content_hash_of}
use gmr.Core.Probe.{not_found, contains}
use gmr.Core.Anchor.{is_terminal}
use gmr.Core.Journal.{AnchorState, reterminal, resume, is_sighting}
use gmr.Store.Journal.{unleased, Stored, done, failed, entries, append}
use gmr.Store.Journal.Steady.{idle}
use gmr.Budget.{Budget}
use gmr.Runtime.Policy.{default_policy}
use gmr.Runtime.Log.{Stood, no_checkpoint, Checkpoints, sightings, stood}
use gmr.Runtime.Log.Sound.{Stands, stood-Stands}
use gmr.Runtime.Errors.{Ran, ran, refused, anchor_closed}
use gmr.Runtime.Scheduler.{default_settings}
use gmr.Runtime.Observer.{Observer, answered}
use gmr.Runtime.Observe.{Observed, Site}
use gmr.Runtime.Deployment.{Deployment}
use gmr.Runtime.Looking.{Moment, observe_with}
use gmr.Runtime.Looking.Ends.{Moved, observe_with-Moved}
use gmr.Runtime.Close.{close}
use gmr.Runtime.Close.Final.{Closed, close-Closed, close_once}
use gmr.Runtime.Revise.{Revised, revise}
use gmr.Runtime.Revise.Changes.{Changed, revise-Changed}
use gmr.Runtime.Open.{OpenRequest, Opened, open_anchor}
use gmr.Runtime.Open.Begun.{Begun, open_anchor-Begun}
use gmr.Examples.Host.{render}
use gmr.Examples.Flat.{
  hashless, bare_derivation, bare_probe, bare_anchor, empty_object, with_null, flat_codec,
  flat-ReadsBack, opened_table, opened_table-IsReady, site_at, deployed, flat_serde,
}

abbrev transports : Observer
transports =
    record {
      kind = [];
      resolve = λ name. some bare_derivation;
      invoke = λ instant probe position budget. answered not_found;
    }
    ∷ []

abbrev some_time : Budget
some_time = record { started = 0; deadline = 100; output_cap = 1000; cancel = 0; inherited = [] }

abbrev midnight : Moment
midnight = record { at = 0; now = 0; instant = 0; flag = 1 }

abbrev after_look_at : Ran (Observed × Stood × Site) → Site
after_look_at (ran (o, f, site)) = site
after_look_at (refused e) = site_at opened_table

abbrev look : Ran (Observed × Stood × Site)
look =
    observe_with flat_codec [] transports (λ key. none) (λ i t. t) (txt "a") unleased some_time
      midnight (site_at opened_table)

abbrev none_found : AnchorState
none_found = record {
  anchor = bare_anchor [] [];
  state = empty_object;
  latest = none;
  latest_seq = none;
  closed = false;
  faltering = none;
  last_sighting = none;
  entered_at = none;
  moved_at = none;
  head = 0;
  revisions = λ k. none;
}

abbrev stood_in : Stored (Option Stood × Checkpoints) → Stood
stood_in (done (some f, held)) = f
stood_in _ = record { anchor = none_found; logged = 0 }

abbrev checkpoints_in : Stored (Option Stood × Checkpoints) → Checkpoints
checkpoints_in (done (f, held)) = held
checkpoints_in (failed e) = no_checkpoint

abbrev just_opened : Stood
just_opened = stood_in (stood flat_codec opened_table no_checkpoint (txt "a"))

abbrev deployment_of {ℓ} : {A : Type ℓ} → Ran A × Deployment → Deployment
deployment_of (r, d) = d

abbrev closing_a : Ran (Unit {0}) × Deployment
closing_a = close flat_serde (λ t. t) (txt "a") (txt "done") 0 (deployed opened_table)

close-Closed_example :
    Closed flat_serde
      (λ t. t)
      (txt "a")
      (txt "done")
      0
      (deployed opened_table)
      (deployment_of closing_a)
unfolding close entries resume append content_hash_of text_eq text_cmp is_terminal contains
    sightings is_sighting
close-Closed_example =
    close-Closed flat_serde (λ t. t) (txt "a") (txt "done") 0 (deployed opened_table)
      (deployment_of closing_a) (λ context reason. flat-ReadsBack _) opened_table-IsReady
      (idle opened_table) refl

close_once_example :
    (held : Checkpoints) × (close flat_serde
        (λ t. t)
        (txt "a")
        (txt "again")
        5
        (deployment_of closing_a)
      ≡ (
        refused anchor_closed,
        record (deployment_of closing_a) {
          site = record (deployment_of closing_a).site { held = held };
        },
      ))
unfolding close entries resume append content_hash_of text_eq text_cmp is_terminal contains
    sightings is_sighting
close_once_example =
    close_once flat_serde (λ t. t) (λ t. t) (txt "a") (txt "done") (txt "again") 0 5
      (deployed opened_table) (deployment_of closing_a) (λ context reason. flat-ReadsBack _)
      opened_table-IsReady (idle opened_table) refl

abbrev revising_a : Ran Revised × Deployment
revising_a =
    revise flat_serde [] (λ t. t) (txt "a") (reterminal []) (txt "no end") 0 (deployed opened_table)

abbrev bare_answer : Revised
bare_answer = record { context = []; rationale = []; warnings = []; incomparable_state = false }

abbrev answer_in : Ran Revised → Revised
answer_in (ran answer) = answer
answer_in (refused e) = bare_answer

revise-Changed_example :
    Changed flat_serde []
      (λ t. t)
      (txt "a")
      (reterminal [])
      (txt "no end")
      0
      (deployed opened_table)
      (answer_in revising_a.0)
      revising_a.1
unfolding revise entries resume append content_hash_of text_eq text_cmp is_terminal contains
    sightings is_sighting
revise-Changed_example =
    revise-Changed flat_serde [] (λ t. t) (txt "a") (reterminal []) (txt "no end") 0
      (deployed opened_table) revising_a.1 (answer_in revising_a.0)
      (λ context reason. flat-ReadsBack _) opened_table-IsReady (idle opened_table) refl

stood-Stands_example :
    Stands flat_codec opened_table
      (txt "a")
      (some just_opened)
      (checkpoints_in (stood flat_codec opened_table no_checkpoint (txt "a")))
unfolding stood entries resume text_eq is_terminal contains sightings is_sighting
stood-Stands_example =
    stood-Stands flat_codec opened_table (txt "a") no_checkpoint
      (checkpoints_in (stood flat_codec opened_table no_checkpoint (txt "a"))) (some just_opened)
      opened_table-IsReady.0 opened_table-IsReady.1 refl

observe_with-Moved_example :
    Moved flat_codec [] transports
      (λ key. none)
      (λ i t. t)
      (txt "a")
      unleased
      some_time
      midnight
      (site_at opened_table)
      just_opened
      empty_object
      (with_null (txt "done"))
      (after_look_at look)
unfolding observe_with stood entries resume append parse eval insert content_hash_of text_eq
    text_cmp is_terminal contains sightings is_sighting render
observe_with-Moved_example =
    observe_with-Moved flat_codec [] transports (λ key. none) (λ i t. t) (txt "a") unleased
      some_time midnight (site_at opened_table) empty_object (with_null (txt "done")) just_opened
      (after_look_at look) (λ i t. idle t) opened_table-IsReady refl

abbrev request : OpenRequest
request = record {
  key = txt "b";
  probe = bare_probe;
  transitions = [];
  terminal = [];
  initial = none;
  settings = default_settings;
  supersedes = none;
}

abbrev opening_b : Ran Opened × Deployment
opening_b =
    open_anchor flat_codec [] transports default_policy (λ t. t) midnight request
      (deployed opened_table)

abbrev opened_in : Ran Opened → Opened
opened_in (ran answer) = answer
opened_in (refused e) = record { key = []; state = empty_object; warnings = []; supersedes = none }

open_anchor-Begun_example :
    Begun flat_codec [] transports default_policy
      (λ t. t)
      midnight
      request
      (deployed opened_table)
      (opened_in opening_b.0)
      opening_b.1
unfolding open_anchor entries append content_hash_of text_eq text_cmp contains
open_anchor-Begun_example =
    open_anchor-Begun flat_codec [] transports default_policy (λ t. t) midnight request
      (deployed opened_table) opening_b.1 (opened_in opening_b.0)
      (λ sealed derivation outcome observation state s m b. flat-ReadsBack _) opened_table-IsReady.0
      (idle opened_table) refl
