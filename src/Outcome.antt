-- ===== src/Outcome.antt =====
-- What a call of the sources (lib/) may come to.

-- A call returns, throws, or does something that C++ does not define: a division by 0, a null pointer
-- followed, or a transaction's handle used after its end.
pub data Outcome (A : Type 0) : Type 0 where
  returned : A → Outcome A
  raised : Outcome A
  undefined : Outcome A
