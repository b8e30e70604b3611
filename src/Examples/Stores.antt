-- ===== src/Examples/Stores.antt =====
-- crates/gmr-store/src/sqlite at concrete tables.
use gmr.Support.{
  true, inl, zero, ◌<◌, [], ◌∷◌, ◌++◌, false, ◌&&◌, Option, none, some, if◌then◌else◌, leb, ◌≡◌,
  ◌≢◌, refl, ap, sym, arith,
}
use gmr.Support.Text.{Text, txt, text_eq, text_cmp}
use gmr.Json.{null}
use gmr.Core.Addr.{content_hash_of}
use gmr.Core.Journal.{Seq, Entry, close}
use gmr.Store.Journal.{
  unleased, held, epoch_of, any, head, Stored, done, failed, Table, anchor_head, Codec, append,
  entries, chain_break,
}
use gmr.Store.Journal.Chain.{ReadsBack, chain_break-append}
use gmr.Store.Journal.Entries.{entries-append}
use gmr.Store.Journal.Writers.{IsNumbered, Writing, append_once}
use gmr.Store.Queue.{Ticket, Queue, lease, due, settle, retire, enqueue}
use gmr.Store.Queue.Epochs.{stay, go, step_settle, step_enqueue, by_lease, by_due, leases_grow}
use gmr.Store.Queue.Keyed.{IsKeyed}
use gmr.Store.Queue.Leases.{rests}
use gmr.Examples.Host.{integers, render}

-- Only a `close` at the instant 0 and without a context is text here: its rationale.
abbrev text_of : Entry → Option Text
text_of (close [] rationale zero) = some rationale
text_of _ = none

abbrev closings : Codec
closings = record {
  to_string = text_of;
  from_str = λ body. some (close [] body 0);
  to_value = λ entry. some null;
}

closings-ReadsBack : (entry : Entry) → ReadsBack closings entry
closings-ReadsBack (close [] rationale zero) body h =
    let k : rationale ≡ body = cc in ap (λ b. some (close [] b 0)) (sym k)
closings-ReadsBack _ body h = cc

abbrev ending : Entry
ending = close [] (txt "done") 0

-- A table with one row, which `append` made out of none.
abbrev empty_table : Table
empty_table = record { rows = []; last = 0 }

abbrev of_stored : Stored (Seq × Table) → Table
of_stored (done (seq, t)) = t
of_stored (failed e) = empty_table

abbrev one_row : Table
one_row = of_stored (append closings empty_table (txt "a") ending unleased any)

abbrev two_rows : Table
two_rows = of_stored (append closings one_row (txt "b") ending (held 3) (head 0))

chain_break-append_example : chain_break closings two_rows ≡ done none
unfolding append chain_break content_hash_of text_eq text_cmp render
chain_break-append_example =
    chain_break-append closings one_row two_rows (txt "b") ending (held 3) (head 0) 2
      (closings-ReadsBack ending) refl refl

entries-append_example :
    entries closings two_rows (txt "a") 0
    ≡ done (
        (1, ending) ∷ []
        ++ (if text_eq (txt "b") (txt "a") && leb 0 2 then (2, ending) ∷ [] else []))
unfolding append entries content_hash_of text_eq text_cmp
entries-append_example =
    entries-append closings one_row two_rows (txt "b") (txt "a") ending (held 3) (head 0) 2 0
      ((1, ending) ∷ []) (closings-ReadsBack ending) refl refl

one_row-IsNumbered : IsNumbered one_row
unfolding append content_hash_of text_eq text_cmp anchor_head
one_row-IsNumbered = record { numbered = λ a. ground arith }

append_once_example :
    append closings two_rows (txt "b") ending unleased (head 0) ≢ done (3, two_rows)
unfolding append content_hash_of text_eq text_cmp
append_once_example =
    append_once closings one_row two_rows two_rows two_rows (txt "b") ending ending (held 3)
      unleased 0 2 3 one_row-IsNumbered refl (Writing.rests two_rows)

abbrev queued : Queue
queued =
    record { anchor = txt "a"; due = 5; lease_until = 0; epoch = 4; parked = false }
    ∷ record { anchor = txt "b"; due = 9; lease_until = 20; epoch = 1; parked = false }
    ∷ []

abbrev first_ticket : Ticket
first_ticket = record { anchor = txt "a"; fence = held 5; lease_until = 70 }

abbrev second_ticket : Ticket
second_ticket = record { anchor = txt "a"; fence = held 6; lease_until = 160 }

-- Leased, retired, enqueued again, and leased again with the rows that are due.
leases_grow_example : epoch_of first_ticket.fence < epoch_of second_ticket.fence
unfolding lease due settle enqueue text_eq IsKeyed
leases_grow_example =
    leases_grow (txt "a") first_ticket second_ticket queued _ _ _ (refl, (refl, tt))
      (by_lease 10 70 queued refl)
      (go (step_settle first_ticket retire 60 (lease (txt "a") 10 70 queued).1) (
        go
          (step_enqueue (txt "a") 90
            (settle first_ticket retire 60 (lease (txt "a") 10 70 queued).1))
          (stay _)))
      (by_due (λ slot. true) 100 160
        (enqueue (txt "a") 90 (settle first_ticket retire 60 (lease (txt "a") 10 70 queued).1)) refl
        (inl refl))

-- A worker whose lease has run out settles under the next holder, whose lease then no longer holds.
late_settle_test :
    (lease
      (txt "a")
      100
      200
      (settle first_ticket retire 90 (lease (txt "a") 80 160 (lease (txt "a") 10 70 queued).1).1)).0
    ≡ some (record { anchor = txt "a"; fence = held 7; lease_until = 200 })
unfolding lease settle text_eq
late_settle_test = refl
