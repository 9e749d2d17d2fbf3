-- ===== src/Tasks/ClientIntegrityTask/Sweep.antt =====
-- `ClientIntegrityTask::execute` (src/tasks/client-integrity-task.cc), client by client.
use residue.Core.Client.{Client, is_alive}
use residue.Core.Configuration.{unmanaged_client_id, member}
use residue.Core.Registry.{Registry, find_client}
use residue.Core.Registry.Clients.{IsWellFormed}
use residue.Prelude.Map
use residue.Prelude.Map.{Map, is_some}
use residue.Tasks.ClientIntegrityTask.{
  PausedClients, pause_client, without_backup_key, is_paused, sweep, execute,
}
use residue.Prelude.{
  ℕ, ◌≡◌, refl, sym, ap, ◌∙◌, ◌⊎◌, inl, inr, true, false, Option, none, some, [], ◌∷◌, arith,
  if◌then◌else◌, Bool-cases, Text, text_eq_iff, text_eq_refl,
}

-- What becomes of a client.
abbrev pub survivor : ℕ → PausedClients → Client → Option Client
survivor now paused c =
    if is_alive c now 0
    then some (record c { backup_key = [] })
    else if is_paused paused c
    then some c
    else none

abbrev pub then_maybe : Option Client → (Client → Option Client) → Option Client
then_maybe none f = none
then_maybe (some c) f = f c

without_backup_key_lem : (c : Client) → without_backup_key c ≡ record c { backup_key = [] }
without_backup_key_lem c = ground arith

find-sweep-none :
    (now : ℕ) (paused : PausedClients) (m : Map Client) (id : Text)
    → Map.find m id ≡ none
    → Map.find (sweep now paused m) id ≡ none
unfolding Map.find sweep
find-sweep-none now paused [] id h = refl
find-sweep-none now paused ((j, c) ∷ m) id h = ground (arith, find-sweep-none now paused m id)

find-sweep :
    (now : ℕ) (paused : PausedClients) (m : Map Client) (id : Text)
    → Map.UniqueKeys m
    → Map.find (sweep now paused m) id ≡ then_maybe (Map.find m id) (survivor now paused)
unfolding Map.find sweep
find-sweep now paused [] id u = refl
find-sweep now paused ((j, c) ∷ m) id u = ground (
  arith,
  without_backup_key_lem c,
  text_eq_iff j id,
  find-sweep-none now paused m id,
  find-sweep now paused m id,
)

member-pause : (id : Text) (paused : PausedClients) → member (pause_client id paused) id ≡ true
unfolding pause_client
member-pause id paused = ground (arith, text_eq_refl id)

is_paused-pause :
    (queue : Text) (paused : PausedClients) (c : Client)
    → (queue ≡ c.id) ⊎ ((c.is_managed ≡ false) × (queue ≡ unmanaged_client_id))
    → is_paused (pause_client queue paused) c ≡ true
unfolding is_paused
is_paused-pause queue paused c (inl e) =
    rw (ap (member (pause_client queue paused)) (sym e) ∙ member-pause queue paused) refl
is_paused-pause queue paused c (inr (unmanaged, e)) =
    rw (ap (member (pause_client queue paused)) (sym e) ∙ member-pause queue paused, unmanaged)
      (ground arith)

-- The clean-up removes the dead clients and no living one: not those that are paused, nor, while the
-- queue of the unmanaged clients is at work, any unmanaged one. A living client loses its backup key;
-- a paused dead one stays as it is.
pub find_client-execute :
    (now : ℕ) (paused : PausedClients) (r : Registry) (id : Text)
    → IsWellFormed r.clients
    → find_client (execute now paused r) id ≡ then_maybe (find_client r id) (survivor now paused)
unfolding execute find_client
find_client-execute now paused r id w = find-sweep now paused r.clients id w.unique

-- While a client's queue is paused, and while that of the unmanaged clients is, no run of the task
-- removes a client that the queue may hold requests of, however late it comes.
pub paused_stays :
    (now : ℕ) (paused : PausedClients) (r : Registry) (queue id : Text) (c : Client)
    → IsWellFormed r.clients
    → find_client r id ≡ some c
    → (queue ≡ c.id) ⊎ ((c.is_managed ≡ false) × (queue ≡ unmanaged_client_id))
    → (d : Client) × (find_client (execute now (pause_client queue paused) r) id ≡ some d)
      × (record d { backup_key = c.backup_key } ≡ c)
paused_stays now paused r queue id c w found own =
    let at =
      find_client-execute now (pause_client queue paused) r id w
      ∙ ap (λ o. then_maybe o (survivor now (pause_client queue paused))) found in
    elim (Bool-cases (is_alive c now 0)) [
      | inl alive ↦ (record c { backup_key = [] }, at ∙ rw alive refl, refl)
      | inr dead ↦ (c, at ∙ rw (dead, is_paused-pause queue paused c own) refl, refl)
    ]
