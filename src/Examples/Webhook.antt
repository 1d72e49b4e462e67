-- ===== src/Examples/Webhook.antt =====
-- The webhook's theorem at a concrete input.
use k8s_chaos.Prelude.{◌≡◌, ◌≢◌, refl, String, List, none, true, false, [], ◌∷◌}
use k8s_chaos.Go.{Result, ok, err, errorf, end}
use k8s_chaos.Api.{Namespace, Pod}
use k8s_chaos.Webhook.Network.{Net}
use k8s_chaos.Webhook.Actions.{validate_cross_field_constraints, validate_action_requirements}
use k8s_chaos.Webhook.Safety.{
  filter_excluded_pods, validate_safety_constraints, validate_production_namespace,
}
use k8s_chaos.Webhook.Create.{
  validate_create, validate_namespace_exists, validate_selector_effectiveness, validate_matched,
}
use k8s_chaos.Webhook.Create.Safe.{validate_create-safe, IsLetIn}
use k8s_chaos.Examples.World.{kube, calendar, experiment, cluster}

-- No text is an address.
abbrev pub net : Net (Unit {0}) (Unit {0})
net = record {
  parse_ip = λ s. none;
  is_ipv4 = λ ip. true;
  is_loopback = λ ip. false;
  is_link_local_unicast = λ ip. false;
  parse_cidr = λ s. err (errorf "invalid CIDR address" end);
  network_ip = λ c. tt;
  contains = λ c ip. false;
}

abbrev pub no_cron : String → Result (Unit {0})
no_cron s = err (errorf "no cron" end)

admitted : (validate_create kube calendar net no_cron experiment cluster).0.1 ≡ ok tt
unfolding validate_create validate_namespace_exists validate_selector_effectiveness validate_matched
    validate_cross_field_constraints validate_safety_constraints validate_production_namespace
    validate_action_requirements
admitted = refl

validate_create-safe_example :
    ((ns : Namespace) × ((kube.get_namespace "default" cluster).0 ≡ ok ns))
    × ((pods : List Pod) × ((kube.list_pods "default" (("app", "web") ∷ []) cluster).0 ≡ ok pods)
        × (filter_excluded_pods pods ≢ []))
    × (validate_cross_field_constraints calendar net no_cron "kill-web" experiment.spec ≡ ok tt)
    × IsLetIn experiment (kube.get_namespace "default" cluster).0
validate_create-safe_example =
    validate_create-safe kube calendar net no_cron experiment cluster admitted
