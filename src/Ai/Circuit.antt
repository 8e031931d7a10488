-- ===== src/Ai/Circuit.antt =====
-- How many calls the circuit of openai.provider.ts lets through to OpenAI, where calls overlap: one
-- may check the circuit while others wait for their answers.
use xlm_pay.Base.{ℕ, ◌+◌, ◌-◌, ◌≤◌, ◌<◌, ◌≡◌, inl, inr, Option, none, some, leb, arith, Bool-cases}
use xlm_pay.Ai.{
  CircuitBreakerState, closed, open_, failed, check_circuit, check_circuit_in, record_failure,
  receive,
}

-- The circuit, the calls that wait for an answer, and those that have been sent.
pub record Calls : Type 0 where
  pub cb : CircuitBreakerState
  pub in_flight : ℕ
  pub sent : ℕ

-- A call begins: it is sent, or the circuit's error is thrown.
unfoldable pub begin_checked : Option CircuitBreakerState → Calls → Calls
begin_checked none s = s
begin_checked (some checked) s = record {
  cb = checked;
  in_flight = s.in_flight + 1;
  sent = s.sent + 1;
}

unfoldable pub begin_call : ℕ → Calls → Calls
begin_call now s = begin_checked (check_circuit now s.cb) s

-- A call that waits fails.
unfoldable pub fail_call : ℕ → Calls → Calls
fail_call now s = record s { cb = (receive failed now s.cb).1; in_flight = s.in_flight - 1 }

-- What happens in a minute in which calls only fail, of which at most so many wait at once.
pub data Steps (start most : ℕ) : Calls → Calls → Type 0 where
  done : (s : Calls) → Steps start most s s
  begins :
      {s t : Calls} (now : ℕ)
      → now < start + 60000
      → s.in_flight < most
      → Steps start most (begin_call now s) t
      → Steps start most s t
  fails :
      {s t : Calls} (now : ℕ)
      → start ≤ now
      → 0 < s.in_flight
      → Steps start most (fail_call now s) t
      → Steps start most s t

-- From a closed circuit, whose failures are counted in `n`: either it is closed still, and what was
-- sent has failed or waits, or it has opened within the minute.
data Bounded (start most n : ℕ) : Calls → Type 0 where
  still_closed :
      (f k m : ℕ) (o : Option ℕ)
      → f < 5
      → m + n ≡ f + k
      → k ≤ most
      → Bounded start most n (record {
        cb = record { failures = f; opened_at = o; state = closed };
        in_flight = k;
        sent = m;
      })
  opened :
      (f k m at : ℕ)
      → 5 ≤ f
      → start ≤ at
      → m + n ≤ 4 + most
      → Bounded start most n (record {
        cb = record { failures = f; opened_at = some at; state = open_ };
        in_flight = k;
        sent = m;
      })

begin_call-Bounded :
    (start most n now : ℕ) (s : Calls)
    → now < start + 60000
    → s.in_flight < most
    → Bounded start most n s
    → Bounded start most n (begin_call now s)
unfolding begin_call begin_checked check_circuit check_circuit_in
begin_call-Bounded start most n now _ soon room (still_closed f k m o h e l) =
    still_closed f (k + 1) (m + 1) o h (omega (arith, e)) (omega (arith, room))
begin_call-Bounded start most n now _ soon room (opened f k m at g h l) =
    elim (Bool-cases (leb 60000 (now - at))) [
      | inl e ↦ absurd (ground (arith, e, soon, h))
      | inr e ↦ rw e (opened f k m at g h l)
    ]

fail_call-Bounded :
    (start most n now : ℕ) (s : Calls)
    → start ≤ now
    → 0 < s.in_flight
    → Bounded start most n s
    → Bounded start most n (fail_call now s)
unfolding fail_call receive record_failure
fail_call-Bounded start most n now _ later some_wait (still_closed f k m o h e l) =
    elim (Bool-cases (leb 5 (f + 1))) [
      | inl q ↦
          rw q (opened (f + 1) (k - 1) m now (ground (arith, q)) later (omega (arith, e, l, h)))
      | inr q ↦ rw q (
          still_closed (f + 1) (k - 1) m o (ground (arith, q)) (omega (arith, e, some_wait))
            (omega (arith, l)))
    ]
fail_call-Bounded start most n now _ later some_wait (opened f k m at g h l) =
    elim (Bool-cases (leb 5 (f + 1))) [
      | inl q ↦ rw q (opened (f + 1) (k - 1) m now (omega (arith, g)) later l)
      | inr q ↦ absurd (ground (arith, q, g))
    ]

steps-Bounded :
    (start most n : ℕ) (s t : Calls)
    → Steps start most s t
    → Bounded start most n s
    → Bounded start most n t
steps-Bounded start most n s _ (done _) h = h
steps-Bounded start most n s t (begins now soon room rest) h =
    steps-Bounded start most n _ t rest (begin_call-Bounded start most n now s soon room h)
steps-Bounded start most n s t (fails now later wait rest) h =
    steps-Bounded start most n _ t rest (fail_call-Bounded start most n now s later wait h)

Bounded-sent : (start most n : ℕ) (s : Calls) → Bounded start most n s → s.sent + n ≤ 4 + most
Bounded-sent start most n _ (still_closed f k m o h e l) = omega (arith, e, h, l)
Bounded-sent start most n _ (opened f k m at g h l) = l

-- Calls that overlap, at most so many at once, and begin and fail within one minute: from a circuit
-- that is closed, together with the failures that it has counted, they are sent to OpenAI at most
-- four times more often than so many, which is five times where no two overlap.
pub sent-closed :
    (start most n : ℕ) (o : Option ℕ) (t : Calls)
    → n < 5
    → Steps start most
        (record {
          cb = record { failures = n; opened_at = o; state = closed };
          in_flight = 0;
          sent = 0;
        })
        t
    → t.sent + n ≤ 4 + most
sent-closed start most n o t h run =
    Bounded-sent start most n t
      (steps-Bounded start most n _ t run (still_closed n 0 0 o h (omega arith) (omega arith)))
