-- ===== src/Crdt/Automerge.antt =====
-- What the CRDT engine uses of the automerge library: documents with an actor, a map at the root,
-- and lists. An operation that fails returns `none`.
use tir_base.Prelude.{ℕ, String, Bool, Option, List}

-- a value at a key of the root map
pub data Value (Scalar : Type 0) : Type 0 where
  scalar : Scalar → Value Scalar
  list_object other_object : Value Scalar

-- an operation of a decoded change
pub record Op (Scalar : Type 0) : Type 0 where
  pub is_insert : Bool
  pub primitive_value : Option Scalar
  pub key_element : Option (ℕ × List ℕ)

pub record Change (Scalar : Type 0) : Type 0 where
  pub start_op : ℕ
  pub actor : List ℕ
  pub operations : List (Op Scalar)

pub record Automerge : Type 1 where
  pub Doc : Type 0
  pub Scalar : Type 0
  pub ObjId : Type 0
  pub new_with_actor : List ℕ → Doc
  pub get_actor : Doc → List ℕ
  pub load : List ℕ → Option Doc
  pub merge : Doc → Doc → Option Doc
  pub get_changes : Doc → List (Change Scalar)
  -- the entries at the root with their element IDs, and the winner at a key
  pub map_range : Doc → List (String × ObjId × Value Scalar)
  pub get : Doc → String → Option ObjId
  -- the element IDs of a list
  pub list_range : Doc → ObjId → List ObjId
  pub same_id : ObjId → ObjId → Bool
  pub to_bytes : ObjId → List ℕ
  pub put : Doc → String → Scalar → Option Doc
  pub delete : Doc → ObjId → ℕ → Option Doc
  pub insert : Doc → ObjId → ℕ → Scalar → Option Doc
