-- ===== src/Examples/Runs.antt =====
-- The theorems on the runs of the handlers at concrete inputs.
use k8s_chaos.Prelude.{
  pos, ◌≤◌, ◌≡◌, ◌⊎◌, inl, refl, eq_iff, String, List, [], ◌∷◌, Option, some, All, length, map,
  true, arith,
}
use k8s_chaos.Go.{Result, ok, err, api, forbidden, Message, fmt, str, strs, end}
use k8s_chaos.Api.{ChaosExperiment, ChaosExperimentSpec, Pod, Node, running}
use k8s_chaos.Client.{M}
use k8s_chaos.Webhook.Safety.{requested_count}
use k8s_chaos.Webhook.Actions.{
  validate_cross_field_constraints, validate_action_requirements, validate_cpu_stress_requirements,
}
use k8s_chaos.Durations.Text.{validate_duration_format}
use k8s_chaos.Controller.Targets.{target_count}
use k8s_chaos.Controller.Outcome.{failed_with}
use k8s_chaos.Controller.Dispatch.{dispatch}
use k8s_chaos.Controller.Dispatch.Progress.{dispatch-Steps}
use k8s_chaos.Controller.Dispatch.DryRun.{dispatch-previews}
use k8s_chaos.Controller.Handlers.Conclusion.{Report, left_alone, conclude}
use k8s_chaos.Controller.Handlers.Injection.{inject_pods}
use k8s_chaos.Controller.Handlers.Tracking.{Grows, IsListed, inject_pods-tracks}
use k8s_chaos.Controller.Machine.{After}
use k8s_chaos.Controller.Handlers.HostPods.{deploy_on_nodes}
use k8s_chaos.Controller.Handlers.HostPods.Panics.{node_name, deploy_on_nodes-all}
use k8s_chaos.Controller.Handlers.Requirements.{cpu_stress_requirements}
use k8s_chaos.Controller.Handlers.Requirements.Accepted.{IsAccepted}
use k8s_chaos.Controller.Handlers.Requirements.Admitted.{
  MeetsSchema, cpu_stress, admitted-IsAccepted,
}
use k8s_chaos.Controller.Handlers.Restart.{
  restart_rounds, poll_restart, wait_for_container_restart, has_restarted,
}
use k8s_chaos.Controller.Handlers.Restart.Polling.{
  Advances, SawRestart, poll_restart-ends, wait_for_container_restart-saw,
}
use k8s_chaos.Examples.World.{
  World, kube, reconciler, calendar, experiment, spec, cluster, web, excluded, node,
}
use k8s_chaos.Examples.Handlers.{NoneDeleted, none_deleted, rehearsal}
use k8s_chaos.Examples.Webhook.{net, no_cron}

advances : Advances kube (λ w. w.time)
advances = record {
  reads = λ w. refl;
  goes_on = λ w. omega arith;
  reading = λ namespace name w. omega arith;
  waits = λ d w h. omega arith;
}

poll_restart-ends_example :
    (answer : Result (Unit {0})) × ((poll_restart reconciler restart_rounds 46000000000 "default"
        "web-1" "main" 0 cluster).0
      ≡ some answer)
poll_restart-ends_example =
    poll_restart-ends reconciler "default" "web-1" "main" 0 (λ w. w.time) advances cluster

-- The container has been restarted twice.
abbrev restarted : World
restarted = record cluster {
  pods =
      record web {
        container_statuses = record { name = "main"; restart_count = 2; state = running } ∷ [];
      }
      ∷ [];
}

succeeded : (wait_for_container_restart reconciler "default" "web-1" "main" 1 restarted).0 ≡ ok tt
unfolding wait_for_container_restart has_restarted
succeeded = refl

wait_for_container_restart-saw_example : SawRestart reconciler "default" "web-1" "main" 1 restarted
wait_for_container_restart-saw_example =
    wait_for_container_restart-saw reconciler "default" "web-1" "main" 1 restarted succeeded

dispatch-Steps_example : After experiment (dispatch reconciler experiment cluster).0.1
dispatch-Steps_example = dispatch-Steps reconciler experiment cluster

dispatch-previews_example : NoneDeleted (dispatch reconciler rehearsal cluster).1
dispatch-previews_example =
    dispatch-previews reconciler NoneDeleted rehearsal (none_deleted rehearsal) refl
      (λ selector w p. p) cluster refl

-- An attack that succeeds on every pod.
abbrev hit : Pod → M World (Option String)
hit pod w = (some "chaos-1", w)

abbrev three_pods : List Pod
three_pods = web ∷ excluded ∷ web ∷ []

abbrev hits_of : ChaosExperiment × List String
hits_of = (inject_pods reconciler experiment hit three_pods cluster).0

inject_pods-tracks_example :
    Grows [] hits_of.0.status.affected_pods
    × All (IsListed hits_of.0.status.affected_pods) hits_of.1
    × (length hits_of.1 ≤ requested_count (pos 2))
inject_pods-tracks_example = inject_pods-tracks reconciler experiment hit three_pods cluster

abbrev stress : ChaosExperimentSpec
stress = record spec { action = "pod-cpu-stress"; cpu_load = pos 80; duration = "30s" }

stress_admitted : validate_cross_field_constraints calendar net no_cron "kill-web" stress ≡ ok tt
unfolding validate_cross_field_constraints validate_action_requirements validate_duration_format
    validate_cpu_stress_requirements
stress_admitted = refl

stress_meets : MeetsSchema stress
stress_meets = record {
  named = λ e. let q = (eq_iff "default" "").1 e in ground (arith, q);
  directed = inl (inl refl);
}

admitted-IsAccepted_example : IsAccepted (cpu_stress_requirements stress)
admitted-IsAccepted_example =
    admitted-IsAccepted calendar net no_cron "kill-web" stress stress_admitted
      cpu_stress_requirements cpu_stress stress_meets

-- No pod can be created.
abbrev report : Report
report = record {
  action = "node-cpu-stress";
  verb = "node-cpu-stress-80%";
  namespace = "";
  kind = "Node";
  summary = λ names. fmt "%v" (strs names end);
  failure = "Failed to apply CPU stress to any nodes";
  retries = left_alone;
  explained = true;
}

abbrev refuse : Node → M World (Result String)
refuse n w = (err (api forbidden "pods is forbidden"), w)

abbrev text_of : String → Message
text_of name = fmt "Deployed CPU stress pod %s" (str name end)

deploy_on_nodes-all_example :
    ((deploy_on_nodes reconciler experiment 0 refuse "ChaosNodeCPUStress" text_of report
        (node ∷ [])
        cluster).0
      ≡ (failed_with reconciler.recovered, experiment))
    ⊎ ((v : World) × (deploy_on_nodes reconciler experiment 0 refuse "ChaosNodeCPUStress" text_of
            report
            (node ∷ [])
            cluster
          ≡ conclude reconciler experiment report 0 (map node_name (node ∷ [])) v))
unfolding target_count
deploy_on_nodes-all_example =
    deploy_on_nodes-all reconciler refuse "ChaosNodeCPUStress" text_of experiment 0 report
      (node ∷ []) cluster
