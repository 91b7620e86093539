-- ===== src/Server/Objects.antt =====
-- CXCommunicationServer/src/CXRPCObjectManager.cpp. Objects are pointers, as numbers; what the manager
-- reads of a CXRPCObjectServer is a record at its address. The new guid of Init is the operating
-- system's, and the object that CreateObject returns is the registered class's: both are arguments.
pub mod Laws
use konsan_net.Prelude.{
  ℕ, Bool, true, false, Option, none, some, List, [], ◌∷◌, ◌++◌, ◌==◌, if◌then◌else◌, add64, sub64,
  find, insert, erase, string_key,
}
use konsan_net.Chain.{set_at}
use Prim.Native.String.{String}

pub record RpcObject : Type 0 where
  pub object_id : String
  pub class_id : String
  pub is_unique_instance : Bool
  pub is_using : Bool

pub record ObjectManager : Type 0 where
  pub register_object : List (String × ℕ)
  pub free_objs : List (String × List ℕ)
  pub using_objs : List (String × ℕ)
  pub using_objects : ℕ
  pub free_objects : ℕ
  pub object : ℕ → RpcObject

-- CXRPCObjectManager::CXRPCObjectManager, over the objects that there are.
unfoldable pub new_object_manager : (ℕ → RpcObject) → ObjectManager
new_object_manager objects = record {
  register_object = [];
  free_objs = [];
  using_objs = [];
  using_objects = 0;
  free_objects = 0;
  object = objects;
}

unfoldable pub set_object : ℕ → RpcObject → ObjectManager → ObjectManager
set_object a o m = record m { object = set_at m.object a o }

-- CXRPCObjectServer::Init, with the new guid.
unfoldable pub init_object : String → ℕ → ObjectManager → ObjectManager
init_object new_guid a m =
    let o : RpcObject = record (m.object a) { object_id = new_guid; is_using = true } in
    if (m.object a).is_unique_instance then m else set_object a o m

-- CXRPCObjectServer::Reset, which the Destroy of CXUnknownRPCObject and of the samples' objects calls.
unfoldable pub reset_object : ℕ → ObjectManager → ObjectManager
reset_object a m =
    let o : RpcObject = record (m.object a) { object_id = ""; is_using = false } in set_object a o m

-- Register
unfoldable pub register : String → ℕ → ObjectManager → ObjectManager
register c a m = record m { register_object = insert c a m.register_object }

-- What GetFreeObject does to an object that it has.
unfoldable pub use_object : String → ℕ → ObjectManager → ObjectManager
use_object new_guid a m =
    let n = init_object new_guid a m in
    record n {
      using_objects = add64 n.using_objects 1;
      using_objs = insert (n.object a).object_id a n.using_objs;
    }

-- Its first part: the first free object of a class, if there is one.
unfoldable pub reuse_object : String → String → ObjectManager → Option (ℕ × ObjectManager)
reuse_object new_guid c m = elim (find c m.free_objs) [
  | none ↦ none
  | some [] ↦ none
  | some (a ∷ rest) ↦ some (
    a,
    use_object new_guid a
        (record m { free_objs = insert c rest m.free_objs; free_objects = sub64 m.free_objects 1 }),
  )
]

-- Its second part: the registered instance, or a new object of its class.
unfoldable pub create_object : String → Option ℕ → String → ObjectManager → Option ℕ × ObjectManager
create_object new_guid created c m = elim (find c m.register_object) [
  | none ↦ (none, m)
  | some a ↦
      if (m.object a).is_unique_instance
      then (some a, m)
      else elim created [ none ↦ (none, m) | some b ↦ (some b, use_object new_guid b m) ]
]

-- GetFreeObject
unfoldable pub get_free_object :
    String → Option ℕ → String → ObjectManager → Option ℕ × ObjectManager
get_free_object new_guid created c m = elim (reuse_object new_guid c m) [
  | some (a, n) ↦ (some a, n)
  | none ↦ create_object new_guid created c m
]

-- GetStaticObject
unfoldable pub get_static_object : String → ObjectManager → Option ℕ
get_static_object c m = find c m.register_object

-- What FreeObject does to an object in use.
unfoldable pub put_back : ℕ → ObjectManager → ObjectManager
put_back a m =
    let c = (m.object a).class_id in
    let frees : List ℕ = elim (find c m.free_objs) [ none ↦ [] | some os ↦ os ] in
    record m {
      using_objs = erase (m.object a).object_id m.using_objs;
      free_objs = insert c (frees ++ a ∷ []) m.free_objs;
    }

-- FreeObject
unfoldable pub free_object : ℕ → ObjectManager → ObjectManager
free_object a m =
    if (m.object a).is_unique_instance
    then m
    else elim (find (m.object a).object_id m.using_objs) [ none ↦ m | some b ↦ put_back a m ]

-- FindUsingObject
unfoldable pub find_using_object : String → ObjectManager → Option ℕ
find_using_object i m = find i m.using_objs
