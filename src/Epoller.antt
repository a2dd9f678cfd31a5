-- ===== src/Epoller.antt =====
-- `Epoller` of include/epoller.h and src/epoller.cc. The kernel's epoll is a parameter. A coroutine is
-- named by its address.
pub mod Batches
mod Tests
use lib_net_co_rpc.Prelude.{
  ℕ, zero, suc, ◌+◌, ◌*◌, Bool, true, false, Option, none, some, List, [], ◌∷◌, ◌++◌, ltb, ◌==◌,
  if◌then◌else◌, length, take, drop,
}
use lib_net_co_rpc.Prelude.Int.{ℤ, pos, negsuc}

-- `epollFd_`, where `none` is a negative one, and the size of `activeEpollEvents_`
pub record Epoller : Type 0 where
  pub epoll_fd : Option ℕ
  pub list_size : ℕ

-- `Epoller()`, with `parameter::epollerListFirstSize`
abbrev pub new_epoller : Epoller
new_epoller = record { epoll_fd = none; list_size = 16 }

abbrev pub is_some : Option ℕ → Bool
is_some none = false
is_some (some fd) = true

-- `isEpollFdUseful`
abbrev pub is_epoll_fd_useful : Epoller → Bool
is_epoll_fd_useful e = is_some e.epoll_fd

-- `init`, with what `epoll_create1` returns
unfoldable pub init : Option ℕ → Epoller → Bool × Epoller
init created e = (is_some created, record e { epoll_fd = created })

pub data Operation : Type 0 where
  ctl_add ctl_mod ctl_del : Operation

module _ {ℓ} {K : Type ℓ} (epoll_ctl : Operation → ℕ → ℕ → ℕ → K → Bool × K) where
  abbrev pub control : Operation → ℕ → ℕ → ℕ → Epoller → K → Bool × K
  control op co fd ev e k = if is_epoll_fd_useful e then epoll_ctl op co fd ev k else (false, k)

  -- `addEv`, `modifyEv` and `removeEv`
  abbrev pub add_ev : ℕ → ℕ → ℕ → Epoller → K → Bool × K
  add_ev co fd ev e k = control ctl_add co fd ev e k

  abbrev pub modify_ev : ℕ → ℕ → ℕ → Epoller → K → Bool × K
  modify_ev co fd ev e k = control ctl_mod co fd ev e k

  abbrev pub remove_ev : ℕ → ℕ → ℕ → Epoller → K → Bool × K
  remove_ev co fd ev e k = control ctl_del co fd ev e k

-- the list of events grows where it was full
abbrev pub grow : ℕ → Epoller → Epoller
grow n e = if n == e.list_size then record e { list_size = e.list_size * 2 } else e

-- `getActEvServ`, with what `epoll_wait` finds, `none` where it fails. It returns -1 where there is no
-- epoll; the `errno` that it returns else is left out.
unfoldable pub get_act_ev_serv : Option (List ℕ) → List ℕ → Epoller → Option (List ℕ × Epoller)
get_act_ev_serv found active e =
    if is_epoll_fd_useful e
    then some (elim found [
      | none ↦ (active, e)
      | some cos ↦
          if ltb 0 (length cos)
          then if ltb e.list_size (length cos)
            then (active, e)
            else (active ++ cos, grow (length cos) e)
          else (active, e)
    ])
    else none
