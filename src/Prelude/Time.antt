-- ===== src/Prelude/Time.antt =====
-- Timestamps. An aware `datetime` is the instant that it names, in microseconds of UTC from the
-- earliest one; a naive one names no instant, and `_as_utc` refuses it.
use Prim.Native.Nat.{ℕ}
use mathlib.Core.Option.{Option, none, some}
use plaik.Prelude.Results.{Result, ok, err}

pub data DateTime : Type 0 where
  aware : ℕ → DateTime
  naive : ℕ → DateTime

abbrev pub or_now : Option DateTime → ℕ → DateTime
or_now (some t) clock = t
or_now none clock = aware clock

-- `_as_utc(value)`, with the error that it raises for a naive value.
unfoldable pub as_utc : {E : Type 0} → E → DateTime → Result E ℕ
as_utc e (aware t) = ok t
as_utc e (naive t) = err e
