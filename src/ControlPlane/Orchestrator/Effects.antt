-- ===== src/ControlPlane/Orchestrator/Effects.antt =====
-- What the code of control-plane/orchestrator.ts does to the task store: calls of it, which delete no
-- task that was there.
use micro_agent_protocol.Base.{
  ◌≡◌, refl, ap, ◌∙◌, subst, inl, inr, String, some, List, [], ◌∷◌, ◌++◌, Result-cases, arith,
}
use micro_agent_protocol.Base.Dict.{get as map_get}
use micro_agent_protocol.Protocol.{TaskRecord}
use micro_agent_protocol.ControlPlane.TaskGuards.{Updates}
use micro_agent_protocol.ControlPlane.TaskStore.{TaskStore, SaveParams}
use micro_agent_protocol.ControlPlane.TaskStore.History.{
  Call, saves, updates, deletes, after, step, run, IsNamed, Spares, status_follows_table,
}
use micro_agent_protocol.ControlPlane.TaskStore.Complete.{IsComplete, run-IsComplete}
use micro_agent_protocol.ControlPlane.Orchestrator.State.{
  Runtime, Action, ◌>>=◌, save_task, update_task,
}

-- One store comes out of another by calls of it.
pub record Effect (s s' : TaskStore) : Type 0 where
  pub calls : List Call
  pub named : IsNamed calls
  pub reached : run s calls ≡ s'
  pub spared : (k : String) (q : TaskRecord) → map_get k s.tasks ≡ some q → Spares k calls

run-append : (s : TaskStore) (cs ds : List Call) → run s (cs ++ ds) ≡ run (run s cs) ds
unfolding run
run-append s [] ds = refl
run-append s (c ∷ cs) ds = run-append (step s c) cs ds

IsNamed-append : (cs ds : List Call) → IsNamed cs → IsNamed ds → IsNamed (cs ++ ds)
IsNamed-append [] ds h k = k
IsNamed-append (saves p now ∷ cs) ds h k = IsNamed-append cs ds h k
IsNamed-append (updates j u now ∷ cs) ds h k = IsNamed-append cs ds h k
IsNamed-append (deletes j ∷ cs) ds h k = (h.0, IsNamed-append cs ds h.1 k)

Spares-append : (k : String) (cs ds : List Call) → Spares k cs → Spares k ds → Spares k (cs ++ ds)
Spares-append k [] ds h i = i
Spares-append k (saves p now ∷ cs) ds h i = Spares-append k cs ds h i
Spares-append k (updates j u now ∷ cs) ds h i = Spares-append k cs ds h i
Spares-append k (deletes j ∷ cs) ds h i = (h.0, Spares-append k cs ds h.1 i)

pub Effect-none : (s : TaskStore) → Effect s s
unfolding run
Effect-none s = record { calls = []; named = tt; reached = refl; spared = λ k q h. tt }

pub Effect-then : {s t u : TaskStore} → Effect s t → Effect t u → Effect s u
Effect-then {s = s} {t = t} {u = u} e f = record {
  calls = e.calls ++ f.calls;
  named = IsNamed-append e.calls f.calls e.named f.named;
  reached = run-append s e.calls f.calls ∙ ap (λ x. run x f.calls) e.reached ∙ f.reached;
  spared = λ k q h.
      let (q', there, _) = status_follows_table s e.calls k q (e.spared k q h) h in
      Spares-append k e.calls f.calls (e.spared k q h)
        (f.spared k q' (subst (λ x. map_get k x.tasks ≡ some q') e.reached there));
}

-- What a piece of code does to the tasks.
abbrev pub Acts {ℓ} : Runtime → {A : Type ℓ} → A × Runtime → Type 0
Acts r (a, r') = Effect r.task_store r'.task_store

pub >>=-Acts :
    {A B : Type 0} (code : Action A) (next : A → Action B) (r : Runtime)
    → Acts r (code r)
    → ((a : A) → Acts (code r).1 (next a (code r).1))
    → Acts r ((code >>= next) r)
>>=-Acts code next r first rest = elim (Result-cases (code r).0) [
  | inl (a, e) ↦ rw (e, ◌>>=◌) (Effect-then first (rest a))
  | inr (x, e) ↦ rw (e, ◌>>=◌) first
]

pub save_task-Acts : (p : SaveParams) (now : String) (r : Runtime) → Acts r (save_task p now r)
unfolding save_task run step after
save_task-Acts p now r = record {
  calls = saves p now ∷ [];
  named = tt;
  reached = ground arith;
  spared = λ k q h. tt;
}

pub update_task-Acts :
    (task_id : String) (u : Updates) (now : String) (r : Runtime)
    → Acts r (update_task task_id u now r)
unfolding update_task run step after
update_task-Acts task_id u now r = record {
  calls = updates task_id u now ∷ [];
  named = tt;
  reached = ground arith;
  spared = λ k q h. tt;
}

pub Effect-IsComplete : {s s' : TaskStore} → Effect s s' → IsComplete s → IsComplete s'
Effect-IsComplete {s = s} e c = subst IsComplete e.reached (run-IsComplete s e.calls c)
