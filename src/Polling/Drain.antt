-- ===== src/Polling/Drain.antt =====
-- The log tail of `poll_task` (backend/app/connectors/_tasks.py): which lines are handed over.
use joulenap.Prelude.{
  ◌≢◌, ℕ, zero, suc, ◌+◌, ◌≤◌, ◌<◌, ◌≡◌, refl, true, false, none, some, List, [], ◌∷◌, All,
  Bool-cases, Option-cases, inl, inr, is_empty, ltb, arith,
}
use joulenap.Polling.{
  LogLine, Remote, Poll, Drained, drained, log_failed, still_draining, after, highest, newer, hand,
  drain_lines, drain,
}

-- Every batch has only lines past those of the batches before it, the last of them `n` or before.
abbrev pub Fresh : List (List LogLine) → ℕ → Type 0
Fresh [] n = Unit
Fresh (batch ∷ earlier) n =
    (before : ℕ) × (before ≤ n)
    × All (λ (line : LogLine). (before < line.0) × (line.0 ≤ n)) batch
    × Fresh earlier before

-- When silence is over: the timeout after the start, or after the clock reading that follows the
-- log call which brought the last batch.
abbrev pub IsDue : Remote → List (List LogLine) → ℕ → Type 0
IsDue r [] due = due ≡ r.clock 0 + r.timeout
IsDue r (batch ∷ earlier) due =
    (seen : ℕ) × (calls : ℕ) × (lines : List LogLine) × (r.log seen calls ≡ some lines)
    × (newer seen lines ≡ batch)
    × (due ≡ r.clock (calls + 1) + r.timeout)

-- What the tail is owed at any time.
pub record IsTailed (r : Remote) (p : Poll) : Type 0 where
  pub fresh : Fresh p.handed p.seen
  pub timed : IsDue r p.handed p.deadline

All-bounded :
    (before n : ℕ) (batch : List LogLine)
    → All (λ (line : LogLine). before < line.0) batch
    → highest batch ≤ n
    → All (λ (line : LogLine). (before < line.0) × (line.0 ≤ n)) batch
All-bounded before n [] h q = tt
All-bounded before n (line ∷ rest) h q =
    ((h.0, ground arith), All-bounded before n rest h.1 (ground arith))

newer-All :
    (seen : ℕ) (lines : List LogLine) → All (λ (line : LogLine). seen < line.0) (newer seen lines)
newer-All seen [] = tt
newer-All seen ((n, t) ∷ rest) = elim (Bool-cases (ltb seen n)) [
  | inl e ↦ rw e (ground arith, newer-All seen rest)
  | inr e ↦ rw e (newer-All seen rest)
]

highest-newer :
    (seen : ℕ) (batch : List LogLine)
    → All (λ (line : LogLine). seen < line.0) batch
    → is_empty batch ≡ false
    → seen < highest batch
highest-newer seen [] h e = ground arith
highest-newer seen (line ∷ rest) h e = let now = h.0 in ground arith

module _ (r : Remote) where
  hand-IsTailed :
      (lines : List LogLine) (p : Poll)
      → r.log p.seen p.calls ≡ some lines
      → is_empty (newer p.seen lines) ≡ false
      → IsTailed r p
      → IsTailed r (hand r (newer p.seen lines) p)
  hand-IsTailed lines p g e t = record {
    fresh = (
      p.seen,
      (let past = highest-newer p.seen (newer p.seen lines) (newer-All p.seen lines) e in
          omega arith),
      All-bounded p.seen _ (newer p.seen lines) (newer-All p.seen lines) (omega arith),
      t.fresh,
    );
    timed = (p.seen, p.calls, lines, g, refl, refl);
  }

  -- No line of the log has a number past `last`.
  abbrev pub LogEnds : ℕ → Type 0
  LogEnds last =
      (n calls : ℕ) (lines : List LogLine) → r.log n calls ≡ some lines → highest lines ≤ last

  -- What `drain` did.
  pub record IsDrain (fuel : ℕ) (p : Poll) (d : Drained) (p' : Poll) : Type 0 where
    pub tailed : IsTailed r p → IsTailed r p'
    pub calls : p.calls ≤ p'.calls
    pub lost_at : p'.lost_at ≡ p.lost_at
    pub enough :
        (last : ℕ) → LogEnds last → p.seen ≤ last → last < p.seen + fuel → d ≢ still_draining
    pub bounded : (last : ℕ) → LogEnds last → p.seen ≤ last → p'.seen ≤ last
    pub answers : ((n calls : ℕ) → p.calls ≤ calls → r.log n calls ≢ none) → d ≢ log_failed

  highest-filter : (seen : ℕ) (lines : List LogLine) → highest (newer seen lines) ≤ highest lines
  highest-filter seen [] = omega arith
  highest-filter seen (line ∷ rest) = ground (arith, highest-filter seen rest)

  stay :
      (fuel : ℕ) (p : Poll) (d : Drained)
      → d ≢ still_draining
      → (((n calls : ℕ) → p.calls ≤ calls → r.log n calls ≢ none) → d ≢ log_failed)
      → IsDrain fuel p d (after p)
  stay fuel p d n q = record {
    tailed = λ t. record { fresh = t.fresh; timed = t.timed };
    calls = omega arith;
    lost_at = refl;
    enough = λ last ends le lt. n;
    bounded = λ last ends le. le;
    answers = q;
  }

  drain_lines_more :
      (fuel : ℕ) (p : Poll) {lines : List LogLine}
      → r.log p.seen p.calls ≡ some lines
      → is_empty (newer p.seen lines) ≡ false
      → drain_lines r (suc fuel) p ≡ drain_lines r fuel (hand r (newer p.seen lines) p)
  unfolding drain_lines
  drain_lines_more fuel p e n = ground arith

  drain_lines_failed :
      (fuel : ℕ) (p : Poll)
      → r.log p.seen p.calls ≡ none
      → drain_lines r (suc fuel) p ≡ (log_failed, after p)
  unfolding drain_lines
  drain_lines_failed fuel p e = ground arith

  drain_lines_done :
      (fuel : ℕ) (p : Poll) {lines : List LogLine}
      → r.log p.seen p.calls ≡ some lines
      → is_empty (newer p.seen lines) ≡ true
      → drain_lines r (suc fuel) p ≡ (drained, after p)
  unfolding drain_lines
  drain_lines_done fuel p e n = ground arith

  drain_tailed : (fuel : ℕ) (p : Poll) → r.tails ≡ true → drain r fuel p ≡ drain_lines r fuel p
  unfolding drain
  drain_tailed fuel p e = ground arith

  drain_untailed : (fuel : ℕ) (p : Poll) → r.tails ≡ false → drain r fuel p ≡ (drained, p)
  unfolding drain
  drain_untailed fuel p e = ground arith

  more-IsDrain :
      (fuel : ℕ) (p : Poll) (lines : List LogLine) (d : Drained) (p' : Poll)
      → r.log p.seen p.calls ≡ some lines
      → is_empty (newer p.seen lines) ≡ false
      → IsDrain fuel (hand r (newer p.seen lines) p) d p'
      → IsDrain (suc fuel) p d p'
  more-IsDrain fuel p lines d p' e n rest =
      let past = highest-newer p.seen (newer p.seen lines) (newer-All p.seen lines) n in
      let most = highest-filter p.seen lines in
      record {
        tailed = λ t. rest.tailed (hand-IsTailed lines p e n t);
        calls = omega (arith, rest.calls);
        lost_at = rest.lost_at;
        enough = λ last ends le lt.
            rest.enough last ends (omega (arith, ends p.seen p.calls lines e)) (omega arith);
        bounded =
            λ last ends le. rest.bounded last ends (omega (arith, ends p.seen p.calls lines e));
        answers = λ a. rest.answers (λ m calls h. a m calls (omega arith));
      }

  drain_lines-IsDrain :
      (fuel : ℕ) (p : Poll) → IsDrain fuel p (drain_lines r fuel p).0 (drain_lines r fuel p).1
  drain_lines-IsDrain zero p =
      unfold drain_lines in
      record {
        tailed = λ t. t;
        calls = omega arith;
        lost_at = refl;
        enough = λ last ends le lt. absurd (omega arith);
        bounded = λ last ends le. le;
        answers = λ a e. cc;
      }
  drain_lines-IsDrain (suc fuel) p = elim (Option-cases (r.log p.seen p.calls)) [
    | inl e ↦
        rw (drain_lines_failed fuel p e)
          (stay (suc fuel) p log_failed (λ x. cc) (λ a. absurd (a p.seen p.calls (omega arith) e)))
    | inr (lines, e) ↦ elim (Bool-cases (is_empty (newer p.seen lines))) [
      | inl n ↦ rw (drain_lines_done fuel p e n) (stay (suc fuel) p drained (λ x. cc) (λ a x. cc))
      | inr n ↦ rw (drain_lines_more fuel p e n) (
          more-IsDrain fuel p lines _ _ e n
            (drain_lines-IsDrain fuel (hand r (newer p.seen lines) p)))
    ]
  ]

  pub drain-IsDrain : (fuel : ℕ) (p : Poll) → IsDrain fuel p (drain r fuel p).0 (drain r fuel p).1
  drain-IsDrain fuel p = elim (Bool-cases r.tails) [
    | inl e ↦ rw (drain_tailed fuel p e) (drain_lines-IsDrain fuel p)
    | inr e ↦ rw (drain_untailed fuel p e) (record {
      tailed = λ t. t;
      calls = omega arith;
      lost_at = refl;
      enough = λ last ends le lt x. cc;
      bounded = λ last ends le. le;
      answers = λ a x. cc;
    })
  ]
