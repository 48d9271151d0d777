-- ===== src/Rid/Garbage/Stops.antt =====
-- How many areas one run of the collector removes.
use inter_uss_platform.Base.{
  ℕ, ◌≡◌, ◌≤◌, ◌+◌, refl, sym, ap, ◌∙◌, inl, inr, String, Bool, Option, none, some, List, [], ◌∷◌,
  map, length, Bool-cases, arith,
}
use mathlib.Core.Path.{subst}
use inter_uss_platform.Base.Lists.{filter}
use inter_uss_platform.Base.Tables.{delete_where}
use inter_uss_platform.Base.Action.{ok, bind_elim}
use inter_uss_platform.Models.Versions.{to_timestamp}
use inter_uss_platform.Scd.Store.{at_most_one}
use inter_uss_platform.Rid.Models.{IdentificationServiceArea}
use inter_uss_platform.Rid.Store.{Db, Tx}
use inter_uss_platform.Rid.Store.Areas.{area_of, is_version, delete_isa, list_expired_isas}
use inter_uss_platform.Rid.Garbage.{go_on_unless, delete_isas, delete_expired_isas}

length-delete_where :
    {A : Type 0} (p : A → Bool) (xs : List A)
    → length (delete_where p xs) + length (filter p xs) ≡ length xs
unfolding delete_where filter
length-delete_where p [] = refl
length-delete_where p (x ∷ xs) = elim (Bool-cases (p x)) [
  | inl e ↦ rw e (omega (arith, length-delete_where p xs))
  | inr e ↦ rw e (omega (arith, length-delete_where p xs))
]

-- How many rows a read that found one, or none, has matched.
matched : {B : Type 0} → Option B → ℕ
matched none = 0
matched (some b) = 1

length-at_most_one :
    {A B : Type 0} (f : A → B) (xs : List A) (o : Option B)
    → at_most_one (map f xs) ≡ ok o
    → length xs ≡ matched o
unfolding at_most_one matched
length-at_most_one f [] none h = refl
length-at_most_one f [] (some b) h = absurd (cc)
length-at_most_one f (x ∷ []) none h = absurd (cc)
length-at_most_one f (x ∷ []) (some b) h = refl
length-at_most_one f (x ∷ y ∷ xs) o h = absurd (cc)

removed :
    (i : IdentificationServiceArea) (o : Option IdentificationServiceArea) (db u : Db)
    → delete_isa i db ≡ (ok o, u)
    → length u.areas + matched o ≡ length db.areas
unfolding delete_isa
removed i o db u h =
    let here = is_version i.id (to_timestamp i.version) in
    let one = length-at_most_one area_of (filter here db.areas) o (ap (λ x. x.0) h) in
    let rows : u.areas ≡ delete_where here db.areas = sym (ap (λ x. x.1.areas) h) in
    ap (λ l. length l + matched o) rows
    ∙ ap (λ n. length (delete_where here db.areas) + n) (sym one)
    ∙ length-delete_where here db.areas

after_one :
    (isas : List IdentificationServiceArea) (n : ℕ) (o : Option IdentificationServiceArea)
    (u db' : Db)
    → length u.areas + matched o ≡ n
    → go_on_unless o (delete_isas isas) u ≡ (ok tt, db')
    → (delete_isas isas u ≡ (ok tt, db') → length u.areas ≤ length db'.areas + 1)
    → n ≤ length db'.areas + 1
unfolding go_on_unless matched
after_one isas n (some i) u db' e k rest =
    let same : length u.areas ≡ length db'.areas = ap (λ x. length x.1.areas) k in
    omega (arith, e, same)
after_one isas n none u db' e k rest = omega (arith, e, rest k)

delete_isas_stops :
    (isas : List IdentificationServiceArea) (db db' : Db)
    → delete_isas isas db ≡ (ok tt, db')
    → length db.areas ≤ length db'.areas + 1
unfolding delete_isas
delete_isas_stops [] db db' h =
    subst (λ x. length db.areas ≤ length x.areas + 1) (ap (λ x. x.1) h) (omega arith)
delete_isas_stops (isa ∷ isas) db db' h = bind_elim (delete_isa isa) _ db h λ o u q k.
    after_one isas (length db.areas) o u db' (removed isa o db u q) k (delete_isas_stops isas u db')

-- A run of the collector removes at most one identification service area, however many have expired.
pub delete_expired_isas_stops :
    (tx : Tx) (writer : String) (db db' : Db)
    → delete_expired_isas tx writer db ≡ (ok tt, db')
    → length db.areas ≤ length db'.areas + 1
unfolding delete_expired_isas list_expired_isas
delete_expired_isas_stops tx writer db db' h =
    bind_elim (list_expired_isas tx writer) _ db h λ isas u q k.
      subst (λ x. length x.areas ≤ length db'.areas + 1) (sym (ap (λ x. x.1) q))
        (delete_isas_stops isas u db' k)
