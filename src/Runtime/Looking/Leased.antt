-- ===== src/Runtime/Looking/Leased.antt =====
-- crates/gmr-runtime/src/observe.rs, observe: the lease around a look.
use gmr.Support.{
  ℕ, suc, ◌+◌, ◌≤◌, ◌<◌, [], ◌∷◌, true, false, leb, Option, none, some, ◌⊎◌, inl, inr, ◌≡◌, refl,
  ap, subst, arith, Bool-cases,
}
use gmr.Support.Text.{Text}
use gmr.Json.{Platform}
use gmr.Store.Journal.{Fence, held, Table, Codec}
use gmr.Store.Queue.{Ticket, Queue, is_of, lease, settle}
use gmr.Store.Queue.Keyed.{has_row}
use gmr.Store.Queue.Epochs.{epoch}
use gmr.Store.Queue.Leases.{lease_end}
use gmr.Store.Queue.Settled.{settle-released, lease-none, lease-anchor}
use gmr.Budget.{Budget}
use gmr.Runtime.Policy.{Policy}
use gmr.Runtime.Errors.{Ran, refused, leased}
use gmr.Runtime.Log.{Stood}
use gmr.Runtime.Observer.{Observer}
use gmr.Runtime.Scheduler.{Settings}
use gmr.Runtime.Observe.{Observed}
use gmr.Runtime.Deployment.{Deployment}
use gmr.Runtime.Looking.{
  Moment, observe_with, answer_after, site_after, after_look, observe_leased, observe,
}

-- The anchor is not in the queue, or another's lease of it runs.
abbrev pub IsTaken : Text → ℕ → Queue → Type 0
IsTaken key now queue = (has_row key queue ≡ false) ⊎ (now < lease_end key queue)

-- The anchor's row is in the queue, and no lease of it runs.
abbrev pub IsFree : Text → ℕ → Queue → Type 0
IsFree key now queue = (has_row key queue ≡ true) × (lease_end key queue ≤ now)

-- When a lease is given, and with which token.
lease-cases :
    (a : Text) (now until : ℕ) (q : Queue)
    → (IsTaken a now q × ((lease a now until q).0 ≡ none))
      ⊎ (IsFree a now q
          × (ticket : Ticket) × ((lease a now until q).0 ≡ some ticket)
          × (ticket.fence ≡ held (suc (epoch a q))))
unfolding lease lease_end epoch
lease-cases a now until [] = inl (inl refl, refl)
lease-cases a now until (slot ∷ q) = elim (Bool-cases (is_of a slot)) [
  | inl e ↦ elim (Bool-cases (leb slot.lease_until now)) [
    | inl l ↦ rw (e, lease, l, lease_end, epoch) (inr ((refl, ground (arith, l)), _, refl, refl))
    | inr l ↦ rw (e, lease, l, lease_end) (inl (inr (ground (arith, l)), refl))
  ]
  | inr e ↦ rw (e, lease, lease_end, epoch) (lease-cases a now until q)
]

module _ ⦃host : Platform⦄ where
  module _ (codec : Codec) (evaluator : Text) (observer : Observer) (settings : Settings) where
    module _ (policy : Policy) (others : ℕ → Table → Table) (key : Text) (budget : Budget) where
      -- Refused, with nothing touched, where the lease cannot be had; else the answer and the site of a
      -- look under the next token, and the lease given back.
      abbrev pub LeftFree :
          Moment → ℕ → Deployment → Queue → Ran (Observed × Stood) × Deployment → Type 0
      LeftFree moment now d queue result =
          (IsTaken key now queue × (result ≡ (refused leased, d)))
          ⊎ (IsFree key now queue
              × (queue' : Queue) × (lease_end key queue' ≡ 0)
              × (let seen =
                    observe_with codec evaluator observer settings others key
                      (held (suc (epoch key queue))) budget moment d.site in
                  result ≡ (
                    answer_after codec evaluator observer settings policy others key budget seen,
                    record d {
                      site =
                          site_after codec evaluator observer settings policy others key budget
                            d.site seen;
                      queue = some queue';
                    },
                  )))

      leased-none :
          (moment : Moment) (later : ℕ) (d : Deployment) (queue : Queue) (r : Option Ticket × Queue)
          → r.0 ≡ none
          → r.1 ≡ queue
          → observe_leased codec evaluator observer settings policy others key budget moment later d
              r
            ≡ (refused leased, record d { queue = some queue })
      unfolding observe_leased
      leased-none moment later d queue (some t, q) p same = cc
      leased-none moment later d queue (none, q) p same =
          ap (λ (o : Option Queue). (refused leased, record d { queue = o })) (ap some same)

      leased_some :
          (moment : Moment) (later : ℕ) (d : Deployment) (ticket : Ticket)
          (r : Option Ticket × Queue)
          → r.0 ≡ some ticket
          → ticket.anchor ≡ key
          → (queue' : Queue) × (lease_end key queue' ≡ 0)
            × (let seen =
                  observe_with codec evaluator observer settings others key ticket.fence budget
                    moment d.site in
                observe_leased codec evaluator observer settings policy others key budget moment
                  later d r
                ≡ (
                  answer_after codec evaluator observer settings policy others key budget seen,
                  record d {
                    site =
                        site_after codec evaluator observer settings policy others key budget d.site
                          seen;
                    queue = some queue';
                  },
                ))
      unfolding observe_leased
      leased_some moment later d ticket (none, q) h is = cc
      leased_some moment later d ticket (some t, q) h is =
          let same : t ≡ ticket = cc in
          let seen =
            observe_with codec evaluator observer settings others key ticket.fence budget moment
              d.site in
          let f = after_look codec evaluator observer settings policy others key budget seen in
          (
            settle ticket f later q,
            subst (λ (a : Text). lease_end a (settle ticket f later q) ≡ 0) is
                (settle-released ticket f later q),
            ap
                (λ (x : Ticket).
                  observe_leased codec evaluator observer settings policy others key budget moment
                    later d (some x, q))
                same,
          )

      -- Where there is a queue, observing an anchor that is not in it, or whose lease another holds, is
      -- refused and changes nothing at all; otherwise the anchor is observed under its next token, and
      -- the lease has been given back at the end, whatever the outcome, errors included.
      pub observe-LeftFree :
          (moment : Moment) (now later : ℕ) (d : Deployment) (queue : Queue)
          → d.queue ≡ some queue
          → LeftFree moment now d queue (
              observe codec evaluator observer settings policy others key budget moment now later d)
      unfolding observe
      observe-LeftFree moment now later d queue h =
          let until = now + policy.lease_secs in
          rw (observe, h)
            (elim (lease-cases key now until queue) [
              | inl (taken, p) ↦ inl (
                taken,
                leased-none moment later d queue (lease key now until queue) p
                    (lease-none key now until queue p),
              )
              | inr (free, ticket, p, fence) ↦
                  let (queue', ended, is) =
                    leased_some moment later d ticket (lease key now until queue) p
                      (lease-anchor key now until queue ticket p) in
                  inr (
                    free,
                    queue',
                    ended,
                    subst
                        (λ (n : Fence).
                          let seen =
                            observe_with codec evaluator observer settings others key n budget
                              moment d.site in
                          observe_leased codec evaluator observer settings policy others key budget
                            moment later d (lease key now until queue)
                          ≡ (
                            answer_after codec evaluator observer settings policy others key budget
                                seen,
                            record d {
                              site =
                                  site_after codec evaluator observer settings policy others key
                                    budget d.site seen;
                              queue = some queue';
                            },
                          ))
                        fence is,
                  )
            ])
