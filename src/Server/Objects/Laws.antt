-- ===== src/Server/Objects/Laws.antt =====
-- An object is found by its guid while it is in use, and is used again after it was freed.
use konsan_net.Prelude.{
  beq_refl, ℕ, ◌≡◌, refl, ap, ◌∙◌, false, Option, none, some, List, [], ◌∷◌, ◌++◌, sub64, find,
  insert, find-insert, find-erase, UniqueKeys, string_key, Bool-cases, inl, inr, ==_refl,
}
use Prim.Native.String.{String}
use konsan_net.Server.Objects.{
  ObjectManager, set_object, init_object, reset_object, use_object, reuse_object, get_free_object,
  put_back, free_object, find_using_object,
}

use_object-find :
    (g : String) (a : ℕ) (m : ObjectManager)
    → (m.object a).is_unique_instance ≡ false
    → (find_using_object g (use_object g a m) ≡ some a)
      × ((((use_object g a m).object a).object_id) ≡ g)
unfolding find_using_object use_object init_object set_object
use_object-find g a m u =
    rw u (rw (==_refl a) (find-insert g g a m.using_objs ∙ rw (beq_refl g) refl, refl))

-- FreeObject of an object in use: it is not found any more, and stands last among the free objects of
-- its class.
pub free_object-find :
    (a b : ℕ) (m : ObjectManager)
    → (m.object a).is_unique_instance ≡ false
    → UniqueKeys m.using_objs
    → find_using_object (m.object a).object_id m ≡ some b
    → let r = free_object a m in
      (find_using_object (m.object a).object_id r ≡ none)
      × ((frees : List ℕ) × (find (m.object a).class_id r.free_objs ≡ some (frees ++ a ∷ [])))
unfolding find_using_object free_object put_back
free_object-find a b m p u e =
    let i = (m.object a).object_id in
    let c = (m.object a).class_id in
    let there : find i m.using_objs ≡ some b = e in
    let frees : List ℕ = elim (find c m.free_objs) [ none ↦ [] | some os ↦ os ] in
    rw (p, free_object)
      (rw there (
        find-erase i i m.using_objs u ∙ rw (beq_refl i) refl,
        (frees, find-insert c c (frees ++ a ∷ []) m.free_objs ∙ rw (beq_refl c) refl),
      ))

reuse_object-some :
    (g c : String) (a : ℕ) (rest : List ℕ) (m : ObjectManager)
    → find c m.free_objs ≡ some (a ∷ rest)
    → reuse_object g c m
      ≡ some (
        a,
        use_object g a (record m {
          free_objs = insert c rest m.free_objs;
          free_objects = sub64 m.free_objects 1;
        }),
      )
unfolding reuse_object
reuse_object-some g c a rest m e = rw (e, reuse_object) refl

-- GetFreeObject hands out the first free object of the class, found from then on under its new guid,
-- without making an object.
pub get_free_object-reuse :
    (g c : String) (created : Option ℕ) (a : ℕ) (rest : List ℕ) (m : ObjectManager)
    → find c m.free_objs ≡ some (a ∷ rest)
    → (m.object a).is_unique_instance ≡ false
    → let (o, r) = get_free_object g created c m in (o ≡ some a) × (find_using_object g r ≡ some a)
unfolding get_free_object
get_free_object-reuse g c created a rest m e u =
    rw (reuse_object-some g c a rest m e, get_free_object) (refl, (use_object-find g a _ u).0)

free_object-unknown :
    (a : ℕ) (m : ObjectManager)
    → find_using_object (m.object a).object_id m ≡ none
    → free_object a m ≡ m
unfolding find_using_object free_object
free_object-unknown a m e =
    let none_there : find (m.object a).object_id m.using_objs ≡ none = e in
    elim (Bool-cases (m.object a).is_unique_instance) [
      | inl u ↦ rw (u, free_object) refl
      | inr u ↦ rw (u, free_object) (rw none_there refl)
    ]

-- The bug: an object whose Destroy resets it, before CXConnectionSession::Destroy frees it, has lost the
-- guid it is in use under: FreeObject does nothing, unless an object is in use under the empty guid, and
-- the destroyed object is still found.
pub free_object-reset :
    (a : ℕ) (i : String) (m : ObjectManager)
    → find_using_object "" m ≡ none
    → find_using_object i m ≡ some a
    → (free_object a (reset_object a m) ≡ reset_object a m)
      × (find_using_object i (free_object a (reset_object a m)) ≡ some a)
unfolding find_using_object reset_object set_object
free_object-reset a i m none_empty there =
    let emptied : ((reset_object a m).object a).object_id ≡ "" = rw (==_refl a) refl in
    let same =
      free_object-unknown a (reset_object a m)
        (ap (λ s. find_using_object s m) emptied ∙ none_empty) in
    (same, ap (λ r. find_using_object i r) same ∙ there)
