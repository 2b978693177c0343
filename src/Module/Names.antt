-- ===== src/Module/Names.antt =====
-- `Name` and `MemberName` of src/instructions/debug.cpp, which return what they name.
use sirit.Base.{ℕ, List}
use sirit.Spirv.{Platform}
use sirit.Stream.{SpvId}
use sirit.Instructions.Debug.{name_chain, member_name_chain}
use sirit.Module.{Method, call_for}

module _ ⦃p : Platform⦄ where
  abbrev pub name : SpvId → List ℕ → Method
  name target text = call_for target (name_chain target text)

  abbrev member_name : SpvId → ℕ → List ℕ → Method
  member_name pointee member text = call_for pointee (member_name_chain pointee member text)
