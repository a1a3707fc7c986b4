-- ===== src/Netfilter/Path.antt =====
-- netfilter/test1 to test4: the four modules on the way of a packet, in any order of their hooks.
use linux_learn_demo_code.Base.{
  ℕ, ◌%◌, ◌^◌, Bool, true, false, ◌&&◌, Option, List, [], ◌∷◌, ◌++◌, if◌then◌else◌, ◌≡◌, ◌≢◌, refl,
  sym, ◌∙◌, ap, Bool-cases, inl, inr,
}
use linux_learn_demo_code.Netfilter.{
  Skb, Verdict, nf_drop, nf_accept, nf_queue_nr, nf_ipaddr_show, nf_local_out_show,
  nf_blockpkt_handler, nf_queue_pkt,
}
use linux_learn_demo_code.Netfilter.Hooks.{is_icmp, verdicts_lem}

-- The points of the kernel at which a hook can stand, those that the modules use.
pub data HookNum : Type 0 where
  pre_routing local_in local_out : HookNum

pub data Priority : Type 0 where
  first : Priority
  filter_plus : ℕ → Priority

-- `struct nf_hook_ops`, for the family NFPROTO_IPV4.
pub record HookOps : Type 0 where
  pub hook : Option Skb → Verdict
  pub hooknum : HookNum
  pub priority : Priority

-- The structures of the four modules; `queue_num` is the parameter of the fourth.
abbrev pub nf_ipaddr_show_ops : HookOps
nf_ipaddr_show_ops = record {
  hook = λ s. (nf_ipaddr_show s).0;
  hooknum = pre_routing;
  priority = first;
}

abbrev pub nf_local_out_ops : HookOps
nf_local_out_ops = record {
  hook = λ s. (nf_local_out_show s).0;
  hooknum = local_out;
  priority = filter_plus 2;
}

abbrev pub nf_blockpkt_ops : HookOps
nf_blockpkt_ops = record { hook = nf_blockpkt_handler; hooknum = pre_routing; priority = first }

abbrev pub nf_queue_pkt_ops : ℕ → HookOps
nf_queue_pkt_ops queue_num = record {
  hook = nf_queue_pkt queue_num;
  hooknum = local_in;
  priority = first;
}

pub data TestModule : Type 0 where
  test1 test2 test3 test4 : TestModule

abbrev pub ops_of : ℕ → TestModule → HookOps
ops_of queue_num test1 = nf_ipaddr_show_ops
ops_of queue_num test2 = nf_local_out_ops
ops_of queue_num test3 = nf_blockpkt_ops
ops_of queue_num test4 = nf_queue_pkt_ops queue_num

-- What the kernel does with hooks that stand one behind the other: the first verdict that is not
-- NF_ACCEPT is the packet's.
pub record Kernel : Type 0 where
  pub run : List HookOps → Option Skb → Verdict
  pub none_left : (s : Option Skb) → run [] s ≡ nf_accept
  pub goes_on :
      (h : HookOps) (hs : List HookOps) (s : Option Skb)
      → h.hook s ≡ nf_accept
      → run (h ∷ hs) s ≡ run hs s
  pub stops :
      (h : HookOps) (hs : List HookOps) (s : Option Skb)
      → h.hook s ≢ nf_accept
      → run (h ∷ hs) s ≡ h.hook s

abbrev pub same_num : HookNum → HookNum → Bool
same_num pre_routing pre_routing = true
same_num local_in local_in = true
same_num local_out local_out = true
same_num _ _ = false

-- The hooks of the loaded modules at a point, in the order in which the kernel has them.
abbrev pub hooks_at : ℕ → HookNum → List TestModule → List HookOps
hooks_at queue_num n [] = []
hooks_at queue_num n (m ∷ ms) =
    let rest = hooks_at queue_num n ms in
    if same_num (ops_of queue_num m).hooknum n then ops_of queue_num m ∷ rest else rest

-- A packet for this host passes the hooks before the routing and then those at its end; a packet of
-- this host passes those at its start.
unfoldable pub incoming : Kernel → ℕ → List TestModule → Option Skb → Verdict
incoming k queue_num ms s =
    k.run (hooks_at queue_num pre_routing ms ++ hooks_at queue_num local_in ms) s

unfoldable pub outgoing : Kernel → ℕ → List TestModule → Option Skb → Verdict
outgoing k queue_num ms s = k.run (hooks_at queue_num local_out ms) s

abbrev pub has_test3 : List TestModule → Bool
has_test3 [] = false
has_test3 (test3 ∷ ms) = true
has_test3 (_ ∷ ms) = has_test3 ms

abbrev pub has_test4 : List TestModule → Bool
has_test4 [] = false
has_test4 (test4 ∷ ms) = true
has_test4 (_ ∷ ms) = has_test4 ms

module _ (k : Kernel) (q : ℕ) (s : Option Skb) where
  abbrev queued : Verdict
  queued = nf_queue_nr (q % 2 ^ 16)

  -- A hook that gives a verdict to ICMP packets and accepts all others.
  run-icmp :
      (h : HookOps) (hs : List HookOps) (v : Verdict)
      → v ≢ nf_accept
      → h.hook s ≡ (if is_icmp s then v else nf_accept)
      → k.run (h ∷ hs) s ≡ (if is_icmp s then v else k.run hs s)
  run-icmp h hs v ne e = elim (Bool-cases (is_icmp s)) [
    | inl icmp ↦
        let f : h.hook s ≡ v = e ∙ ap (λ b. if b then v else nf_accept) icmp in
        k.stops h hs s (λ a. ne (sym f ∙ a)) ∙ f ∙ ap (λ b. if b then v else k.run hs s) (sym icmp)
    | inr not_icmp ↦
        k.goes_on h hs s (e ∙ ap (λ b. if b then v else nf_accept) not_icmp)
        ∙ ap (λ b. if b then v else k.run hs s) (sym not_icmp)
  ]

  merged :
      (icmp more : Bool) (v w : Verdict)
      → (if icmp then v else (if icmp && more then v else w)) ≡ (if icmp && true then v else w)
  merged true more v w = refl
  merged false more v w = refl

  never : (icmp : Bool) (v w : Verdict) → (if icmp && false then v else w) ≡ w
  never true v w = refl
  never false v w = refl

  through_local_in :
      (ms : List TestModule)
      → k.run (hooks_at q local_in ms) s ≡ (if is_icmp s && has_test4 ms then queued else nf_accept)
  through_local_in [] = k.none_left s ∙ sym (never (is_icmp s) queued nf_accept)
  through_local_in (test1 ∷ ms) = through_local_in ms
  through_local_in (test2 ∷ ms) = through_local_in ms
  through_local_in (test3 ∷ ms) = through_local_in ms
  through_local_in (test4 ∷ ms) =
      run-icmp (nf_queue_pkt_ops q) (hooks_at q local_in ms) queued (λ e. cc) (verdicts_lem s q).1
      ∙ ap (λ v. if is_icmp s then queued else v) (through_local_in ms)
      ∙ merged (is_icmp s) (has_test4 ms) queued nf_accept

  through_pre_routing :
      (ms : List TestModule) (after : List HookOps)
      → k.run (hooks_at q pre_routing ms ++ after) s
        ≡ (if is_icmp s && has_test3 ms then nf_drop else k.run after s)
  through_pre_routing [] after = sym (never (is_icmp s) nf_drop (k.run after s))
  through_pre_routing (test1 ∷ ms) after =
      k.goes_on nf_ipaddr_show_ops (hooks_at q pre_routing ms ++ after) s (verdicts_lem s q).2
      ∙ through_pre_routing ms after
  through_pre_routing (test2 ∷ ms) after = through_pre_routing ms after
  through_pre_routing (test3 ∷ ms) after =
      run-icmp nf_blockpkt_ops (hooks_at q pre_routing ms ++ after) nf_drop (λ e. cc)
        (verdicts_lem s q).0
      ∙ ap (λ v. if is_icmp s then nf_drop else v) (through_pre_routing ms after)
      ∙ merged (is_icmp s) (has_test3 ms) nf_drop (k.run after s)
  through_pre_routing (test4 ∷ ms) after = through_pre_routing ms after

  through_local_out : (ms : List TestModule) → k.run (hooks_at q local_out ms) s ≡ nf_accept
  through_local_out [] = k.none_left s
  through_local_out (test1 ∷ ms) = through_local_out ms
  through_local_out (test2 ∷ ms) =
      k.goes_on nf_local_out_ops (hooks_at q local_out ms) s (verdicts_lem s q).3
      ∙ through_local_out ms
  through_local_out (test3 ∷ ms) = through_local_out ms
  through_local_out (test4 ∷ ms) = through_local_out ms

  -- Whichever of the four modules are loaded, in whatever order their hooks stand, a packet for this host that
  -- is IPv4 and ICMP is dropped if test3 is among them, whether or not test4 is; without test3 it is given to the queue if test4 is among them. Every other packet is
  -- accepted, and so is every packet that this host sends.
  pub incoming_lem :
      (ms : List TestModule)
      → (incoming k q ms s ≡ (
          if is_icmp s && has_test3 ms
          then nf_drop
          else if is_icmp s && has_test4 ms
          then nf_queue_nr (q % 2 ^ 16)
          else nf_accept))
        × (outgoing k q ms s ≡ nf_accept)
  unfolding incoming outgoing
  incoming_lem ms = (
    through_pre_routing ms (hooks_at q local_in ms)
        ∙ ap (λ v. if is_icmp s && has_test3 ms then nf_drop else v) (through_local_in ms),
    through_local_out ms,
  )
