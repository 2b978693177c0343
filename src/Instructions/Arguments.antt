-- ===== src/Instructions/Arguments.antt =====
-- Arguments of every type that the instruction methods take, for statements about all methods.
use sirit.Base.{ℕ, ℤ, Bool, Option, List}
use sirit.Stream.{SpvId, Literal}

pub record Arguments : Type 0 where
  pub id : ℕ → SpvId
  pub number : ℕ → ℕ
  pub integer : ℕ → ℤ
  pub flag : ℕ → Bool
  pub literal : ℕ → Literal
  pub operands : List SpvId
  pub literals : List Literal
  pub initializer : Option SpvId
  pub mask : Option ℕ
  pub text : List ℕ
