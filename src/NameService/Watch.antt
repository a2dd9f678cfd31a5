-- ===== src/NameService/Watch.antt =====
-- The callback of the watch: the names that `GetServers` puts into a path come out of it again.
use mathlib.Core.Path.{ap₂}
use lib_net_co_rpc.Prelude.{
  take_all, ℕ, suc, ◌+◌, ◌≤◌, ◌≡◌, ◌≢◌, refl, ap, ◌∙◌, true, false, List, [], ◌∷◌, ◌++◌, some,
  arith, ◌==◌, length, take, drop, All, length-append,
}
use lib_net_co_rpc.NameService.{LoadBalancer}
use lib_net_co_rpc.NameService.Service.{
  slash, method_path, slash_at, split_path, Actions, run_ns, child_watch_cb,
}

take-append : {A : Type 0} (xs ys : List A) → take (length xs) (xs ++ ys) ≡ xs
take-append [] ys = refl
take-append (x ∷ xs) ys = ap (λ zs. x ∷ zs) (take-append xs ys)

drop_past : {A : Type 0} (y : A) (xs ys : List A) → drop (suc (length xs)) (xs ++ y ∷ ys) ≡ ys
drop_past y [] ys = refl
drop_past y (x ∷ xs) ys = drop_past y xs ys

-- no byte of the name is '/'
abbrev pub NoSlash : List ℕ → Type 0
NoSlash = All (λ c. c ≢ slash)

slash_at-append :
    (service method : List ℕ)
    → NoSlash service
    → slash_at (service ++ slash ∷ method) ≡ some (length service)
unfolding slash_at
slash_at-append [] method clean = refl
slash_at-append (c ∷ service) method (other, clean) =
    let miss : (c == slash) ≡ false = ground arith in
    rw (miss, slash_at-append service method clean)

abbrev pub whole_path : List ℕ → List ℕ → List ℕ
whole_path service method = slash ∷ service ++ slash ∷ method

pub method_path_whole :
    (service method : List ℕ)
    → length service + length method ≤ 1021
    → method_path service method ≡ whole_path service method
unfolding method_path
method_path_whole service method fits =
    let l = length-append service (slash ∷ method) in
    take_all 1023 (whole_path service method) (omega arith)

-- For a service whose name has no '/', and names that fit into the buffer, the callback reads off
-- the path the service and the method that `GetServers` wrote into it.
pub split_path-method_path :
    (service method : List ℕ)
    → NoSlash service
    → length service + length method ≤ 1021
    → split_path (method_path service method) ≡ some (service, method)
unfolding split_path
split_path-method_path service method clean fits = rw (method_path_whole service method fits) (
    rw (slash_at-append service method clean, split_path)
      (ap₂ (λ a b. some (a, b)) (take-append service (slash ∷ method))
        (ap (λ n. drop n (whole_path service method)) two ∙ drop_past slash service method)))
  where
    two : length service + 2 ≡ suc (suc (length service))
    two = omega arith

-- On a change under a method's node, the callback runs `RunNS` for that service and method.
pub child_watch_cb-run_ns {ℓ} :
    {L : Type ℓ} (lb : LoadBalancer L) (list_children : List ℕ → List (List ℕ))
    (service method : List ℕ) (actions : Actions L)
    → NoSlash service
    → length service + length method ≤ 1021
    → child_watch_cb lb list_children true (method_path service method) actions
      ≡ some (run_ns lb list_children service method actions)
unfolding child_watch_cb
child_watch_cb-run_ns lb list_children service method actions clean fits =
    rw (split_path-method_path service method clean fits)
