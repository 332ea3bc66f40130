-- ===== src/Database/Fenced.antt =====
-- The rules for handlers, for the fenced connection and for the validation before it.
use conductor_data_platform.Prelude.{Option, none, some}
use conductor_data_platform.Models.{ProjectDeployment}
use conductor_data_platform.Lifecycle.{Raised}
use conductor_data_platform.Outcome.{Outcome, returned, raised}
use conductor_data_platform.Database.Identifiers.{validate}
use conductor_data_platform.Database.Server.{
  connected, locked, unlocked, World, arrive, Session, ◌>>=◌, ◌>>◌, on_error, closing, release,
  fenced_connection, under_lock, note,
}
use conductor_data_platform.Database.Manager.{validated}
use conductor_data_platform.Database.Trace.{IsGuarded, Keeps, >>=-IsGuarded, arrive-trace}

module _ {S : Type 0} (d : ProjectDeployment) where
  pub on_error-IsGuarded :
      {A : Type 0} (body : Session S A) (handler : Session S (Unit {0}))
      → Keeps d body
      → Keeps d handler
      → Keeps d (on_error body handler)
  on_error-IsGuarded {A} body handler kb kh w h = go (body w).0
    where
      go :
          (r : Outcome A)
          → IsGuarded d
              (elim r as (λ _. Outcome A × World S) [
                | returned a ↦ (returned a, (body w).1)
                | raised e ↦ (handler >>= λ _ w. (raised e, w)) (body w).1
              ]).1.trace
      go (returned a) = kb w h
      go (raised e) =
          >>=-IsGuarded d handler (λ _ w. (raised e, w)) (body w).1 (kh (body w).1 (kb w h))
            (λ _ _. kh (body w).1 (kb w h))

  pub then-IsGuarded :
      {B : Type 0} (m : Session S (Unit {0})) (k : Session S B)
      → Keeps d m
      → Keeps d k
      → Keeps d (m >> k)
  then-IsGuarded m k hm hk w h = >>=-IsGuarded d m (λ _. k) w (hm w h) (λ _ _. hk (m w).1 (hm w h))

  release-IsGuarded : {A : Type 0} (r : Outcome A) → Keeps {S = S} d (release r)
  release-IsGuarded {A} r w h = go (arrive w).0
    where
      go :
          (u : Outcome (Unit {0}))
          → IsGuarded d
              (closing {S = S} (elim u as (λ _. Outcome A × World S) [
                | returned _ ↦ (r, note unlocked (arrive w).1)
                | raised e ↦ (raised e, (arrive w).1)
              ])).1.trace
      go (returned _) = (tt, (tt, rw (arrive-trace d w) h))
      go (raised e) = (tt, rw (arrive-trace d w) h)

  under_lock-IsGuarded :
      {A : Type 0} (body : Session S A) → Keeps d body → Keeps d (under_lock body)
  under_lock-IsGuarded {A} body k w h = go (arrive w).0
    where
      go :
          (l : Outcome (Unit {0}))
          → IsGuarded d
              (elim l as (λ _. Outcome A × World S) [
                | raised e ↦ closing (raised e, (arrive w).1)
                | returned _ ↦
                    release (body (note locked (arrive w).1)).0 (body (note locked (arrive w).1)).1
              ]).1.trace
      go (raised e) = (tt, rw (arrive-trace d w) h)
      go (returned _) =
          release-IsGuarded (body (note locked (arrive w).1)).0 (body (note locked (arrive w).1)).1
            (k (note locked (arrive w).1) (tt, rw (arrive-trace d w) h))

  pub fenced_connection-IsGuarded :
      {A : Type 0} (body : Session S A) → Keeps d body → Keeps d (fenced_connection body)
  unfolding fenced_connection
  fenced_connection-IsGuarded body k w h =
      let e = arrive-trace d w in
      >>=-IsGuarded d arrive (λ _ w. under_lock body (note connected w)) w (rw e h)
        (λ _ _. under_lock-IsGuarded body k (note connected (arrive w).1) (tt, rw e h))

  pub validated-IsGuarded :
      {A : Type 0} (body : Session S A) → Keeps d body → Keeps d (validated d body)
  validated-IsGuarded {A} body k w h = go (validate d)
    where
      go :
          (o : Option Raised)
          → IsGuarded d
              (elim o as (λ _. Outcome A × World S) [
                | some e ↦ (raised e, w)
                | none ↦ body w
              ]).1.trace
      go none = k w h
      go (some e) = h
