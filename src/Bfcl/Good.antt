-- ===== src/Bfcl/Good.antt =====
-- What holds of the state of a run of bench/bfcl.py after each of its steps.
use qwen38_flash_next_sglang.Prelude.{ℕ, suc, ◌≤◌, ◌≡◌, refl, true, List, [], all, length, arith}
use qwen38_flash_next_sglang.Json.{Result, ok, err}
use qwen38_flash_next_sglang.Bfcl.Run.{Message, Progress, add_msgs, sent, and_then, reading}
use qwen38_flash_next_sglang.Bfcl.Closed.{closed, closed-append}

-- At most `n` conversations have been sent, each with the results of its calls; the requests that
-- are counted are among them.
pub record Good (n : ℕ) (s : Progress) : Type 0 where
  pub msgs_closed : closed [] s.msgs ≡ true
  pub asked_closed : all (closed []) s.asked ≡ true
  pub counted : s.agg.requests ≤ length s.asked
  pub bounded : length s.asked ≤ n

pub Good-mono : (m n : ℕ) (s : Progress) → m ≤ n → Good m s → Good n s
Good-mono m n s h g = record {
  msgs_closed = g.msgs_closed;
  asked_closed = g.asked_closed;
  counted = g.counted;
  bounded = omega (arith, g.bounded, h);
}

pub sent-Good : (n : ℕ) (s : Progress) → Good n s → Good (suc n) (sent s)
sent-Good n s g = record {
  msgs_closed = g.msgs_closed;
  asked_closed = rw g.msgs_closed g.asked_closed;
  counted = omega (arith, g.counted);
  bounded = omega (arith, g.bounded);
}

pub add_msgs-Good :
    (n : ℕ) (ms : List Message) (s : Progress)
    → closed [] ms ≡ true
    → Good n s
    → Good n (add_msgs ms s)
add_msgs-Good n ms s h g = record {
  msgs_closed = closed-append [] s.msgs ms g.msgs_closed h;
  asked_closed = g.asked_closed;
  counted = g.counted;
  bounded = g.bounded;
}

pub and_then-Good :
    {A B : Type 0} (n : ℕ) (r : Result A × Progress) (f : A → Progress → Result B × Progress)
    → Good n r.1
    → ((a : A) → Good n (f a r.1).1)
    → Good n (and_then r f).1
unfolding and_then
and_then-Good n (ok a, s) f g h = h a
and_then-Good n (err e, s) f g h = g

pub reading-Good :
    {A B : Type 0} (n : ℕ) (r : Result A) (f : A → Progress → Result B × Progress) (s : Progress)
    → Good n s
    → ((a : A) → r ≡ ok a → Good n (f a s).1)
    → Good n (reading r f s).1
unfolding reading
reading-Good n (ok a) f s g h = h a refl
reading-Good n (err e) f s g h = g
