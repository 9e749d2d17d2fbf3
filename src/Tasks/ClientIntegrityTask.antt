-- ===== src/Tasks/ClientIntegrityTask.antt =====
-- `ClientIntegrityTask` (src/tasks/client-integrity-task.cc, client-integrity-task.h): the clients
-- that have died leave the registry, unless a queue is still at work for them.
pub mod Sweep
use residue.Core.Client.{Client, is_alive}
use residue.Core.Configuration.{unmanaged_client_id, member}
use residue.Core.Registry.{Registry}
use residue.Prelude.Map
use residue.Prelude.Map.{Map}
use residue.Prelude.{
  ℕ, Bool, not, ◌&&◌, ◌||◌, none, some, List, [], ◌∷◌, if◌then◌else◌, Text, text_eq, is_empty,
}

-- `m_pausedClients`, a set.
abbrev pub PausedClients : Type 0
PausedClients = List Text

unfoldable pub pause_client : Text → PausedClients → PausedClients
pause_client client_id paused = if member paused client_id then paused else client_id ∷ paused

-- `find` and `erase`.
unfoldable pub resume_client : Text → PausedClients → PausedClients
resume_client client_id [] = []
resume_client client_id (x ∷ xs) =
    if text_eq x client_id then xs else x ∷ resume_client client_id xs

abbrev pub without_backup_key : Client → Client
without_backup_key c = if is_empty c.backup_key then c else record c { backup_key = [] }

-- `performCleanup`.
unfoldable pub perform_cleanup : ℕ → Text → Registry → Registry
perform_cleanup now client_id r = elim (Map.find r.clients client_id) [
  | none ↦ r
  | some c ↦
      if not (is_alive c now 0)
      then record r { clients = Map.erase r.clients client_id }
      else record r { clients = Map.modify r.clients client_id without_backup_key }
]

-- Whether a dead client stays for now.
unfoldable pub is_paused : PausedClients → Client → Bool
is_paused paused c = member paused c.id || (not c.is_managed && member paused unmanaged_client_id)

-- The loop of `execute` over the clients.
unfoldable pub sweep : ℕ → PausedClients → Map Client → Map Client
unfolding is_paused
sweep now paused [] = []
sweep now paused ((id, c) ∷ m) =
    let rest = sweep now paused m in
    if not (is_alive c now 0)
    then if is_paused paused c then (id, c) ∷ rest else rest
    else (id, without_backup_key c) ∷ rest

unfoldable pub execute : ℕ → PausedClients → Registry → Registry
unfolding sweep
execute now paused r = record r { clients = sweep now paused r.clients }
