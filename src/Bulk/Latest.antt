-- ===== src/Bulk/Latest.antt =====
-- What `_normalize_schedule_bulk_date_updates` collects: the last update of each entity.
use taiga_back_schedule_mana.Base.{
  ℕ, ◌≡◌, refl, sym, ap, subst, ◌∙◌, Bool, true, false, ◌&&◌, Option, none, some, or_else, List, [],
  ◌∷◌, All, All-map, ◌==◌, Bool-cases, inl, inr, first, if◌then◌else◌, arith,
}
use taiga_back_schedule_mana.Model.{
  EntityType, same_type, same_type_iff, ok, err, ok-injective, >>=-eq-ok,
}
use taiga_back_schedule_mana.Bulk.Request.{
  RawUpdate, Update, same_entity, put_update, normalize_update, normalize_from,
}

abbrev pub Apart : List Update → Type 0
Apart [] = Unit
Apart (u ∷ rest) = All (λ v. same_entity u v ≡ false) rest × Apart rest

-- The update of one entity in a list.
abbrev pub update_of : EntityType → ℕ → List Update → Option Update
update_of entity_type entity_id updates =
    first (λ u. same_type u.entity_type entity_type && u.entity_id == entity_id) updates

-- What the request says last of an entity: an entry that comes later counts first.
pub last_update : EntityType → ℕ → List RawUpdate → Option Update
last_update entity_type entity_id [] = none
last_update entity_type entity_id (raw ∷ rest) =
    or_else (last_update entity_type entity_id rest) (elim (normalize_update raw) [
      | err e ↦ none
      | ok u ↦ update_of entity_type entity_id (u ∷ [])
    ])

pub same_entity_sym : (u v : Update) → same_entity u v ≡ same_entity v u
same_entity_sym u v =
    ground
      (arith, same_type_iff u.entity_type v.entity_type, same_type_iff v.entity_type u.entity_type)

pub put-All :
    (w u : Update) (us : List Update)
    → same_entity w u ≡ false
    → All (λ v. same_entity w v ≡ false) us
    → All (λ v. same_entity w v ≡ false) (put_update u us)
unfolding put_update
put-All w u [] e h = (e, tt)
put-All w u (v ∷ us) e h = elim (Bool-cases (same_entity u v)) [
  | inl same ↦ rw same (e, h.1)
  | inr other ↦ rw other (h.0, put-All w u us e h.1)
]

pub replaced :
    (u v : Update) (us : List Update)
    → same_entity u v ≡ true
    → All (λ w. same_entity v w ≡ false) us
    → All (λ w. same_entity u w ≡ false) us
replaced u v us e h =
    All-map {P = λ (w : Update). same_entity v w ≡ false} {Q = λ w. same_entity u w ≡ false} us
      (λ w d. ground (
        arith,
        same_type_iff u.entity_type v.entity_type,
        same_type_iff u.entity_type w.entity_type,
        same_type_iff v.entity_type w.entity_type,
      ))
      h

pub put-Apart : (u : Update) (us : List Update) → Apart us → Apart (put_update u us)
unfolding put_update
put-Apart u [] h = (tt, tt)
put-Apart u (v ∷ us) h = elim (Bool-cases (same_entity u v)) [
  | inl same ↦ rw same (replaced u v us same h.0, h.1)
  | inr other ↦
      rw other (put-All v u us (sym (same_entity_sym u v) ∙ other) h.0, put-Apart u us h.1)
]

abbrev pub is_key : EntityType → ℕ → Update → Bool
is_key t i u = same_type u.entity_type t && u.entity_id == i

pub is_key_same :
    (t : EntityType) (i : ℕ) (u v : Update) → same_entity u v ≡ true → is_key t i u ≡ is_key t i v
is_key_same t i u v e = ground (
  arith,
  same_type_iff u.entity_type v.entity_type,
  same_type_iff u.entity_type t,
  same_type_iff v.entity_type t,
)

pub is_key_apart :
    (t : EntityType) (i : ℕ) (u v : Update)
    → same_entity u v ≡ false
    → is_key t i u ≡ true
    → is_key t i v ≡ false
is_key_apart t i u v e h = ground (
  arith,
  same_type_iff u.entity_type v.entity_type,
  same_type_iff u.entity_type t,
  same_type_iff v.entity_type t,
)

pub update_of-put :
    (t : EntityType) (i : ℕ) (u : Update) (us : List Update)
    → update_of t i (put_update u us) ≡ (if is_key t i u then some u else update_of t i us)
unfolding put_update
update_of-put t i u [] = refl
update_of-put t i u (v ∷ us) = elim (Bool-cases (same_entity u v)) [
  | inl same ↦ rw (same, is_key_same t i u v same) (again (is_key t i v) u (update_of t i us))
  | inr other ↦ rw other (ground (arith, update_of-put t i u us, is_key_apart t i u v other))
]
  where
    again :
        (b : Bool) (u : Update) (o : Option Update)
        → (if b then some u else o) ≡ (if b then some u else if b then some v else o)
    again true u o = refl
    again false u o = refl

-- The loop of the normalization.
pub normalize_from_lem :
    (t : EntityType) (i : ℕ) (raws : List RawUpdate) (acc us : List Update)
    → Apart acc
    → normalize_from raws acc ≡ ok us
    → Apart us × (update_of t i us ≡ or_else (last_update t i raws) (update_of t i acc))
unfolding normalize_from last_update
normalize_from_lem t i [] acc us h e =
    (subst Apart (ok-injective e) h, ap (update_of t i) (sym (ok-injective e)))
normalize_from_lem t i (raw ∷ raws) acc us h e =
    let (u, normal, rest) =
      >>=-eq-ok (normalize_update raw) (λ u. normalize_from raws (put_update u acc)) e in
    let (apart, found) =
      normalize_from_lem t i raws (put_update u acc) us (put-Apart u acc h) rest in
    (
      apart,
      rw (normal) (
          found
          ∙ (ap (or_else (last_update t i raws)) (update_of-put t i u acc)
              ∙ regroup (last_update t i raws) (is_key t i u) u (update_of t i acc))),
    )
  where
    regroup :
        (l : Option Update) (b : Bool) (u : Update) (o : Option Update)
        → or_else l (if b then some u else o) ≡ or_else (or_else l (if b then some u else none)) o
    regroup none true u o = refl
    regroup none false u o = refl
    regroup (some v) b u o = refl
