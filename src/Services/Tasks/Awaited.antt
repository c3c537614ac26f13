-- ===== src/Services/Tasks/Awaited.antt =====
-- src/common/task_manager.rs: when a shutdown completes.
use liq_ranger.Base.{◌≡◌, refl, ◌↔◌, ◌≢◌, [], ◌∷◌, All}
use liq_ranger.Services.Tasks.{
  Service, Handle, Handles, End, finished, panicked, runs_on, Shutdown, complete, end_of,
  await_handle, shutdown_all_tasks,
}

-- The task of the handle ends.
abbrev pub Ends : (Service → End) → Handle → Type 0
Ends ends handle = end_of ends handle.task ≢ runs_on

await_handle-eq-complete :
    (handle : Handle) (end : End) (rest : Shutdown)
    → (await_handle handle end rest ≡ complete) ↔ ((end ≢ runs_on) × (rest ≡ complete))
await_handle-eq-complete handle finished rest = ((λ e. ((λ f. cc), e)), λ h. h.1)
await_handle-eq-complete handle panicked rest = ((λ e. ((λ f. cc), e)), λ h. h.1)
await_handle-eq-complete handle runs_on rest = ((λ e. absurd (cc)), λ h. absurd (h.0 refl))

pub shutdown_all_tasks-eq-complete :
    (ends : Service → End) (handles : Handles)
    → (shutdown_all_tasks ends handles ≡ complete) ↔ All (Ends ends) handles
unfolding shutdown_all_tasks
shutdown_all_tasks-eq-complete ends [] = ((λ e. tt), λ h. refl)
shutdown_all_tasks-eq-complete ends (handle ∷ handles) =
    let (to, from) = await_handle-eq-complete handle (end_of ends handle.task) _ in
    let (listed, all) = shutdown_all_tasks-eq-complete ends handles in
    ((λ e. let (k, r) = to e in (k, listed r)), λ h. from (h.0, all h.1))
