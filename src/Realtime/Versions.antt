-- ===== src/Realtime/Versions.antt =====
-- The version of a solo ride is the rank of its status: no transaction lowers it, and one that changes the
-- status raises it. So an event that a client drops as old never says more than what it shows.
pub mod Steps
pub mod Starts
pub mod Histories
use mathlib.Core.Option
use rcab.Base.{
  ℕ, ◌≤◌, ◌≡◌, refl, sym, ap, subst, ◌∙◌, Bool, true, false, Option, none, some, List, ◌⊎◌, inl,
  inr, Bool-cases, if◌then◌else◌, arith, update_where, find_by-update_where,
}
use rcab.Store.{Ride, Db}
use rcab.Trips.View.{ride_key, find_ride}
use rcab.Realtime.{ride_status_version}

pub record IsAhead (r r' : Ride) : Type 0 where
  pub forward : ride_status_version r.status ≤ ride_status_version r'.status
  pub still : ride_status_version r.status ≡ ride_status_version r'.status → r'.status ≡ r.status

-- Every ride is still there, and no further back.
abbrev pub IsForward : List Ride → List Ride → Type 0
IsForward rides rides' =
    (id : ℕ) (r : Ride)
    → find_ride id rides ≡ some r
    → (r' : Ride) × (find_ride id rides' ≡ some r') × IsAhead r r'

IsAhead-refl : (r : Ride) → IsAhead r r
IsAhead-refl r = record { forward = ground arith; still = λ e. refl }

IsAhead-trans : (q r s : Ride) → IsAhead q r → IsAhead r s → IsAhead q s
IsAhead-trans q r s a b = record {
  forward = let x = a.forward in let y = b.forward in ground arith;
  still = λ e.
      let x = a.forward in
      let y = b.forward in
      let same : ride_status_version q.status ≡ ride_status_version r.status = ground arith in
      let same' : ride_status_version r.status ≡ ride_status_version s.status = sym same ∙ e in
      b.still same' ∙ a.still same;
}

pub IsForward-refl : (rides : List Ride) → IsForward rides rides
IsForward-refl rides id r e = (r, e, IsAhead-refl r)

pub IsForward-trans : (a b c : List Ride) → IsForward a b → IsForward b c → IsForward a c
IsForward-trans a b c f g id r e =
    let (r', e', ahead) = f id r e in
    let (s, e2, ahead') = g id r' e' in (s, e2, IsAhead-trans r r' s ahead ahead')

-- An update that takes each row that it hits forward.
pub update-IsForward :
    (rides : List Ride) (p : Ride → Bool) (f : Ride → Ride)
    → ((x : Ride) → (f x).id ≡ x.id)
    → ((id : ℕ) (r : Ride) → find_ride id rides ≡ some r → p r ≡ true → IsAhead r (f r))
    → IsForward rides (update_where p f rides)
update-IsForward rides p f same ahead id r e = (
  if p r then f r else r,
  find_by-update_where ride_key p f same id rides ∙ ap (Option.map (λ x. if p x then f x else x)) e,
  go (Bool-cases (p r)),
)
  where
    go : (p r ≡ true) ⊎ (p r ≡ false) → IsAhead r (if p r then f r else r)
    go (inl hit) = subst (λ b. IsAhead r (if b then f r else r)) (sym hit) (ahead id r e hit)
    go (inr miss) = subst (λ b. IsAhead r (if b then f r else r)) (sym miss) (IsAhead-refl r)
