-- ===== src/Webhook/Network.antt =====
-- api/v1alpha1/validation_helpers.go: addresses, ranges and ports. Go's `net` package is a parameter.
use k8s_chaos.Prelude.{
  ℕ, ℤ, suc, String, List, [], ◌∷◌, Bool, false, ◌||◌, not, Option, none, some, is_nonpos, exceeds,
  ◌==◌, if◌then◌else◌,
}
use k8s_chaos.Go.{Message, lit, fmt, Result, ok, err, errorf, wrapf, str, int, num, end}

pub record Net (Ip Cidr : Type 0) : Type 0 where
  pub parse_ip : String → Option Ip
  -- `ip.To4() != nil`.
  pub is_ipv4 : Ip → Bool
  pub is_loopback : Ip → Bool
  pub is_link_local_unicast : Ip → Bool
  pub parse_cidr : String → Result Cidr
  pub network_ip : Cidr → Ip
  pub contains : Cidr → Ip → Bool

unfoldable pub validate_port_range : ℤ → Result (Unit {0})
validate_port_range port =
    if is_nonpos port || exceeds port 65535
    then err (errorf "port %d is out of range: must be 1-65535" (int port end))
    else ok tt

abbrev pub cluster_service_cidrs : List String
cluster_service_cidrs = "10.96.0.0/12" ∷ "10.0.0.0/8" ∷ "172.16.0.0/12" ∷ []

-- The loops `for i, x := range xs { if err := check(x); err != nil { return fmt.Errorf(field, i, err) } }`.
unfoldable pub validate_each {ℓ} :
    {A : Type ℓ} → (A → Result (Unit {0})) → String → ℕ → List A → Result (Unit {0})
validate_each check field i [] = ok tt
validate_each check field i (x ∷ xs) =
    let rest = validate_each check field (suc i) xs in
    elim (check x) [ err e ↦ err (wrapf field (num i end) e) | ok _ ↦ rest ]

is_protocol : String → Bool
is_protocol p = p == "tcp" || p == "udp" || p == "icmp"

unfoldable pub validate_protocols : ℕ → List String → Result (Unit {0})
unfolding is_protocol
validate_protocols i [] = ok tt
validate_protocols i (p ∷ ps) =
    let rest = validate_protocols (suc i) ps in
    if not (is_protocol p)
    then err (
        errorf "targetProtocols[%d]: invalid protocol %q, must be one of: tcp, udp, icmp"
          (num i (str p end)))
    else rest

module _ {Ip Cidr : Type 0} (net : Net Ip Cidr) where
  open net use {
    parse_ip, is_ipv4, is_loopback, is_link_local_unicast, parse_cidr, network_ip, contains,
  }

  unfoldable pub validate_cidr : String → Result (Unit {0})
  validate_cidr cidr =
      if cidr == "" then err (errorf "CIDR cannot be empty" end) else elim (parse_cidr cidr) [
        | err e ↦ err (wrapf "invalid CIDR notation %q: %w" (str cidr end) e)
        | ok n ↦
            if not (is_ipv4 (network_ip n))
            then err (errorf "CIDR %q is not IPv4 (IPv6 not supported)" (str cidr end))
            else ok tt
      ]

  unfoldable pub validate_ip : String → Result (Unit {0})
  validate_ip ip =
      if ip == "" then err (errorf "IP address cannot be empty" end) else elim (parse_ip ip) [
        | none ↦ err (errorf "invalid IP address %q" (str ip end))
        | some p ↦
            if not (is_ipv4 p)
            then err (errorf "IP %q is not IPv4 (IPv6 not supported)" (str ip end))
            else ok tt
      ]

  -- The loop over the cluster's ranges; a range that does not parse is passed over.
  cluster_range_reason : String → Ip → List String → Option Message
  cluster_range_reason ip p [] = none
  cluster_range_reason ip p (cidr ∷ cidrs) =
      let rest = cluster_range_reason ip p cidrs in
      elim (parse_cidr cidr) [
        | err _ ↦ rest
        | ok n ↦
            if not (contains n p)
            then rest
            else if ip == "10.96.0.1"
            then some (
                lit
                  "Kubernetes API server (10.96.0.1) - blocking this will break all k8s API access")
            else if ip == "10.96.0.10" || ip == "10.96.0.2"
            then some (
                lit "Cluster DNS (typically 10.96.0.10) - blocking this will break name resolution")
            else some (
                fmt "Cluster service IP range (%s) - may affect cluster communication"
                  (str cidr end))
      ]

  -- `none` is the result `false, ""`.
  unfoldable pub is_dangerous_target : String → Option Message
  unfolding cluster_range_reason
  is_dangerous_target ip = elim (parse_ip ip) [
    | none ↦ none
    | some p ↦
        if is_loopback p
        then some (lit "Loopback address (127.0.0.1) - blocking this will break pod processes")
        else if is_link_local_unicast p
        then some (lit "Link-local address (169.254.x.x) - may affect cloud metadata service")
        else cluster_range_reason ip p cluster_service_cidrs
  ]

  overlap_reason : Cidr → List String → Option Message
  overlap_reason n [] = none
  overlap_reason n (cidr ∷ cidrs) =
      let rest = overlap_reason n cidrs in
      elim (parse_cidr cidr) [
        | err _ ↦ rest
        | ok m ↦
            if contains n (network_ip m) || contains m (network_ip n)
            then some (
                fmt
                  "CIDR overlaps with cluster service range (%s) - may affect cluster communication"
                  (str cidr end))
            else rest
      ]

  -- `net.ParseIP("127.0.0.1")`; a nil address is in no range.
  contains_loopback : Cidr → Bool
  contains_loopback n = elim (parse_ip "127.0.0.1") [ none ↦ false | some p ↦ contains n p ]

  unfoldable pub is_dangerous_cidr : String → Option Message
  unfolding overlap_reason contains_loopback
  is_dangerous_cidr cidr = elim (parse_cidr cidr) [
    | err _ ↦ none
    | ok n ↦
        if contains_loopback n
        then some (lit "CIDR contains loopback range - will break pod processes")
        else overlap_reason n cluster_service_cidrs
  ]
