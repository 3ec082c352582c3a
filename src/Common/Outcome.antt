-- ===== src/Common/Outcome.antt =====
-- Outcomes of C code: a value, or a fault. A fault stands for a failed assertion, for behaviour
-- that C leaves undefined (a division by zero or a read of an uninitialised variable among it), or for a loop whose fuel ran out.

pub data Fault : Type 0 where
  assertion null_deref out_of_bounds bad_call no_fuel div_by_zero uninitialised overflow : Fault

pub data Result (A : Type 0) : Type 0 where
  ok : A → Result A
  fault : Fault → Result A
