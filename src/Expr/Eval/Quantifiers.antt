-- ===== src/Expr/Eval/Quantifiers.antt =====
-- crates/gmr-expr/src/eval.rs, quantified: what `any`, `all` and `count` say of the anchors.
use gmr.Support.{
  zero, suc, ltb, ℕ, ◌+◌, ◌-◌, ◌≤◌, List, [], ◌∷◌, Bool, true, false, not, ◌&&◌, ◌≡◌, refl, ap, ◌∙◌,
  arith, if◌then◌else◌, ◌==◌, All, ap₂, zero-add,
}
use gmr.Json.{Platform, null, bool, number, Json}
use gmr.Expr.Ast.{Quant, Over, Node, quantified, Expression}
use gmr.Expr.Ctx.{Ctx, each}
use gmr.Expr.Outcome.{Evaluated, value, absent, fault, negated}
use gmr.Expr.Eval.{
  eval, Tally, counted, returned, tallied, tally, is_empty, conclude, quantify, collection,
  announce,
}

module _ ⦃host : Platform⦄ where
  -- What the loop finds when every answer is turned round.
  abbrev mirror : Tally → Tally
  mirror (counted held answered) = counted (answered - held) answered
  mirror (returned f) = returned f

  abbrev Fits : Tally → Type 0
  Fits (counted held answered) = held ≤ answered
  Fits (returned f) = Unit

  tallied-Fits :
      (e : Evaluated) (next : ℕ → ℕ → Tally) (held answered : ℕ)
      → ((h a : ℕ) → h ≤ a → Fits (next h a))
      → held ≤ answered
      → Fits (tallied e next held answered)
  unfolding tallied
  tallied-Fits (value (bool true)) next held answered k h =
      k (held + 1) (answered + 1) (omega arith)
  tallied-Fits (value (bool false)) next held answered k h = k held (answered + 1) (omega arith)
  tallied-Fits (value null) next held answered k h = tt
  tallied-Fits (value _) next held answered k h = tt
  tallied-Fits absent next held answered k h = k held answered h
  tallied-Fits (fault f) next held answered k h = tt

  tally-Fits :
      (ask : Json → Evaluated) (states : List Json) (held answered : ℕ)
      → held ≤ answered
      → Fits (tally ask states held answered)
  unfolding tally
  tally-Fits ask [] held answered h = h
  tally-Fits ask (s ∷ states) held answered h =
      tallied-Fits (ask s) (tally ask states) held answered (tally-Fits ask states) h

  tallied-mirror :
      (e : Evaluated) (next next' : ℕ → ℕ → Tally) (held missed answered : ℕ)
      → ((h m a : ℕ) → h + m ≡ a → next' m a ≡ mirror (next h a))
      → held + missed ≡ answered
      → tallied (negated e) next' missed answered ≡ mirror (tallied e next held answered)
  unfolding tallied negated
  tallied-mirror (value (bool true)) next next' held missed answered k h =
      k (held + 1) missed (answered + 1) (omega arith)
  tallied-mirror (value (bool false)) next next' held missed answered k h =
      k held (missed + 1) (answered + 1) (omega arith)
  tallied-mirror (value null) next next' held missed answered k h = refl
  tallied-mirror (value _) next next' held missed answered k h = refl
  tallied-mirror absent next next' held missed answered k h = k held missed answered h
  tallied-mirror (fault f) next next' held missed answered k h = refl

  tally-mirror :
      (ask : Json → Evaluated) (states : List Json) (held missed answered : ℕ)
      → held + missed ≡ answered
      → tally (λ s. negated (ask s)) states missed answered
        ≡ mirror (tally ask states held answered)
  unfolding tally
  tally-mirror ask [] held missed answered h = ap (λ m. counted m answered) (omega arith)
  tally-mirror ask (s ∷ states) held missed answered h =
      tallied-mirror (ask s) (tally ask states) (tally (λ s. negated (ask s)) states) held missed
        answered (tally-mirror ask states) h

  conclude-mirror :
      (empty : Bool) (t : Tally)
      → Fits t
      → conclude Quant.all empty t ≡ negated (conclude Quant.any empty (mirror t))
  unfolding conclude negated
  conclude-mirror empty (counted held answered) h = ground arith
  conclude-mirror empty (returned f) h = refl

  -- `all` of a body says what the negation of `any` of the negated body says, its absence and its
  -- faults included.
  pub all-eq-not_any_not :
      (over : Over) (body : Expression) (ctx : Ctx)
      → eval (quantified Quant.all over body) ctx
        ≡ eval (Node.not (quantified Quant.any over (Node.not body))) ctx
  unfolding eval quantify
  all-eq-not_any_not over body ctx =
      let states = collection over ctx in
      let ask = λ (s : Json). eval body (each ctx s) in
      rw (tally-mirror ask states 0 0 0 refl) (
        conclude-mirror (is_empty states) (tally ask states 0 0)
          (tally-Fits ask states 0 0 (omega arith)))

  -- An answer to the body: yes, no, or nothing.
  abbrev pub IsAnswer : Evaluated → Type 0
  IsAnswer (value (bool b)) = Unit
  IsAnswer (value _) = ⊥
  IsAnswer absent = Unit
  IsAnswer (fault f) = ⊥

  yes_of : Evaluated → ℕ
  yes_of (value (bool true)) = 1
  yes_of _ = 0

  answer_of : Evaluated → ℕ
  answer_of (value v) = 1
  answer_of _ = 0

  -- How many of the states the body says yes of, and how many it answers for.
  unfoldable pub yes_count : (Json → Evaluated) → List Json → ℕ
  unfolding yes_of
  yes_count ask [] = 0
  yes_count ask (s ∷ states) = yes_of (ask s) + yes_count ask states

  unfoldable pub answer_count : (Json → Evaluated) → List Json → ℕ
  unfolding answer_of
  answer_count ask [] = 0
  answer_count ask (s ∷ states) = answer_of (ask s) + answer_count ask states

  tallied-counts :
      (e : Evaluated) (next : ℕ → ℕ → Tally) (held answered ys answers : ℕ)
      → ((h a : ℕ) → next h a ≡ counted (h + ys) (a + answers))
      → IsAnswer e
      → tallied e next held answered
        ≡ counted (held + (yes_of e + ys)) (answered + (answer_of e + answers))
  unfolding tallied yes_of answer_of
  tallied-counts (value (bool true)) next held answered ys answers k h =
      k (held + 1) (answered + 1) ∙ ap₂ counted (omega arith) (omega arith)
  tallied-counts (value (bool false)) next held answered ys answers k h =
      k held (answered + 1) ∙ ap₂ counted (omega arith) (omega arith)
  tallied-counts (value null) next held answered ys answers k h = absurd h
  tallied-counts (value _) next held answered ys answers k h = absurd h
  tallied-counts absent next held answered ys answers k h =
      k held answered ∙ ap₂ counted (omega arith) (omega arith)
  tallied-counts (fault f) next held answered ys answers k h = absurd h

  tally-counts :
      (ask : Json → Evaluated) (states : List Json) (held answered : ℕ)
      → All (λ s. IsAnswer (ask s)) states
      → tally ask states held answered
        ≡ counted (held + yes_count ask states) (answered + answer_count ask states)
  unfolding tally yes_count answer_count
  tally-counts ask [] held answered h = ap₂ counted (omega arith) (omega arith)
  tally-counts ask (s ∷ states) held answered h =
      tallied-counts (ask s) (tally ask states) held answered (yes_count ask states)
        (answer_count ask states) (λ k a. tally-counts ask states k a h.1) h.0

  -- Whether some anchor got a yes, whether all that were answered for did, and how many did.
  abbrev pub says : Quant → ℕ → ℕ → Evaluated
  says Quant.any zero answers = value (bool false)
  says Quant.any (suc held) answers = value (bool true)
  says Quant.all held answers = value (bool (held == answers))
  says Quant.count held answers = value (number (host.from_usize held))

  announce-says :
      (how : Quant) (held answers : ℕ) → announce how held answers ≡ says how held answers
  unfolding announce
  announce-says Quant.any zero answers = refl
  announce-says Quant.any (suc held) answers = ap (λ b. value (bool b)) (some_yes held)
    where
      some_yes : (n : ℕ) → ltb 0 (suc n) ≡ true
      some_yes n = ground arith
  announce-says Quant.all held answers = refl
  announce-says Quant.count held answers = refl

  -- Where the body says yes, no or nothing of each anchor, a quantifier is absent if there are
  -- anchors and none was answered for; otherwise `any` is whether some anchor got a yes, `all`
  -- whether as many got a yes as were answered for, and `count` how many got a yes.
  pub quantified-counts :
      (how : Quant) (over : Over) (body : Expression) (ctx : Ctx)
      → let ask = λ (s : Json). eval body (each ctx s) in
        let states = collection over ctx in
        All (λ s. IsAnswer (ask s)) states
        → eval (quantified how over body) ctx ≡ (
            if answer_count ask states == 0 && not (is_empty states)
            then absent
            else says how (yes_count ask states) (answer_count ask states))
  unfolding eval quantify conclude announce
  quantified-counts how over body ctx h =
      let ask = λ (s : Json). eval body (each ctx s) in
      let states = collection over ctx in
      rw (tally-counts ask states 0 0 h) (
        simp zero-add (
          ap
            (λ (e : Evaluated).
              if answer_count ask states == 0 && not (is_empty states) then absent else e)
            (announce-says how (yes_count ask states) (answer_count ask states))))
