-- ===== src/Controller/Handlers/Scripts.antt =====
-- internal/controller/chaosexperiment_controller.go: the shell scripts of the disk fills and of the
-- network partition, line by line.
use Prim.Native.String
use k8s_chaos.Prelude.{ℕ, String, List, [], ◌∷◌}
use k8s_chaos.Go.{Message, fmt, str, num, end}

abbrev newline : String
newline = "\n"

-- Every line with its end.
unfoldable pub script : List String → String
script [] = ""
script (line ∷ lines) = String.◌++◌ line (String.◌++◌ newline (script lines))

-- Both disk fills have these lines after the first three.
abbrev fill_lines : List String
fill_lines =
    "PERCENT=%d" ∷ "DURATION=%d" ∷ "" ∷ "mkdir -p \"$TARGET\""
    ∷ "df_out=$(df -Pk \"$TARGET\" | tail -1)" ∷ "total_kb=$(echo \"$df_out\" | awk '{print $2}')"
    ∷ "used_kb=$(echo \"$df_out\" | awk '{print $3}')"
    ∷ "if [ -z \"$total_kb\" ] || [ -z \"$used_kb\" ]; then"
    ∷ "  echo \"failed to read disk usage\"" ∷ "  exit 1" ∷ "fi"
    ∷ "target_kb=$((total_kb * PERCENT / 100))" ∷ "fill_kb=$((target_kb - used_kb))"
    ∷ "if [ \"$fill_kb\" -le 0 ]; then" ∷ "  echo \"disk already above target\""
    ∷ "  sleep \"$DURATION\"" ∷ "  exit 0" ∷ "fi" ∷ "fallocate_failed=0"
    ∷ "if command -v fallocate >/dev/null 2>&1; then"
    ∷ "  if ! fallocate -l \"${fill_kb}K\" \"$FILE\"; then" ∷ "    fallocate_failed=1" ∷ "  fi"
    ∷ "else" ∷ "  fallocate_failed=1" ∷ "fi" ∷ "if [ \"$fallocate_failed\" -ne 0 ]; then"
    ∷ "  count=$((fill_kb / 1024))" ∷ "  if [ \"$count\" -le 0 ]; then" ∷ "    count=1" ∷ "  fi"
    ∷ "  dd if=/dev/zero of=\"$FILE\" bs=1M count=\"$count\" conv=fsync 2>/dev/null" ∷ "fi"
    ∷ "sleep \"$DURATION\"" ∷ "rm -f \"$FILE\"" ∷ []

-- The container in a pod fills its own file system.
abbrev pub pod_fill_script : String
unfolding script
pod_fill_script =
    script ("set -e" ∷ "TARGET=%q" ∷ "FILE=\"$TARGET/chaos-disk-fill.img\"" ∷ fill_lines)

-- The pod on a node fills the directory that it has mounted.
abbrev pub node_fill_script : String
unfolding script
node_fill_script =
    script
      ("set -e" ∷ "TARGET=/fill-target" ∷ "FILE=\"$TARGET/chaos-node-disk-fill.img\"" ∷ fill_lines)

abbrev partition_lines : List String
partition_lines =
    "" ∷ "# Create custom iptables chain for isolation" ∷ "iptables -N %s" ∷ ""
    ∷ "# Insert jump to custom chain at high priority (position 1)" ∷ "iptables -I INPUT 1 -j %s"
    ∷ "iptables -I OUTPUT 1 -j %s" ∷ ""
    ∷ "# Allow loopback traffic in custom chain to prevent process lockup"
    ∷ "iptables -A %s -i lo -j ACCEPT" ∷ "iptables -A %s -o lo -j ACCEPT" ∷ ""
    ∷ "# Block traffic based on direction in custom chain"
    ∷ "if [ \"%s\" = \"both\" ] || [ \"%s\" = \"ingress\" ]; then" ∷ "  iptables -A %s -j DROP"
    ∷ "fi" ∷ "if [ \"%s\" = \"both\" ] || [ \"%s\" = \"egress\" ]; then"
    ∷ "  iptables -A %s -j DROP" ∷ "fi" ∷ "" ∷ "# Wait for partition duration" ∷ "sleep %d" ∷ ""
    ∷ "# Safe cleanup: Remove only chaos chain, not system rules"
    ∷ "# Using '|| true' for idempotency on retries" ∷ "iptables -D INPUT -j %s || true"
    ∷ "iptables -D OUTPUT -j %s || true" ∷ "iptables -F %s || true" ∷ "iptables -X %s || true" ∷ []

-- The jumps from INPUT and OUTPUT lead to one chain, and so do the rules of both directions.
unfoldable pub partition_script : String → String → ℕ → Message
unfolding script
partition_script chain direction seconds =
    let c = chain in
    let d = direction in
    fmt (script partition_lines) (
      str c (
        str c (
          str c (
            str c (
              str c (
                str d (
                  str d (
                    str c (
                      str d
                        (str d (str c (num seconds (str c (str c (str c (str c end))))))))))))))))
