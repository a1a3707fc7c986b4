-- ===== src/Netfilter/Modules.antt =====
-- netfilter/test1, test2 and test4: loading and unloading of the modules with a static structure of
-- operations. The hooks that are registered are the addresses of such structures.
use linux_learn_demo_code.Base.{
  ℕ, not, List, [], ◌∷◌, if◌then◌else◌, ◌==◌, Fresh, ◌≡◌, ◌≢◌, refl, arith,
}
use linux_learn_demo_code.Netfilter.{dropped}

-- `nf_ipaddr_show_init`, with what `nf_register_net_hook` returns: the code, and the hooks.
unfoldable pub nf_ipaddr_show_init : ℕ → ℕ → List ℕ → ℕ × List ℕ
nf_ipaddr_show_init ops ret hooks = if not (ret == 0) then (ret, hooks) else (0, ops ∷ hooks)

unfoldable pub nf_ipaddr_show_exit : ℕ → List ℕ → List ℕ
nf_ipaddr_show_exit ops hooks = dropped ops hooks

-- `nf_local_out_init`.
unfoldable pub nf_local_out_init : ℕ → ℕ → List ℕ → ℕ × List ℕ
nf_local_out_init ops ret hooks = if not (ret == 0) then (ret, hooks) else (0, ops ∷ hooks)

unfoldable pub nf_local_out_exit : ℕ → List ℕ → List ℕ
nf_local_out_exit ops hooks = dropped ops hooks

-- `my_nfqueue_init`.
unfoldable pub my_nfqueue_init : ℕ → ℕ → List ℕ → ℕ × List ℕ
my_nfqueue_init ops ret hooks = if not (ret == 0) then (ret, hooks) else (0, ops ∷ hooks)

unfoldable pub my_nfqueue_exit : ℕ → List ℕ → List ℕ
my_nfqueue_exit ops hooks = dropped ops hooks

dropped-Fresh : (p : ℕ) (hooks : List ℕ) → Fresh p hooks → dropped p hooks ≡ hooks
dropped-Fresh p [] f = refl
dropped-Fresh p (q ∷ hooks) f = ground (arith, f.0, dropped-Fresh p hooks f.1)

-- The three modules loaded one after the other and unloaded in another order leave the hooks as they
-- were, if each of their structures is another and all registrations succeed; a module whose
-- registration fails leaves them as they were at once.
pub exits-inits :
    (a b c bad : ℕ) (hooks : List ℕ)
    → Fresh a (b ∷ c ∷ hooks)
    → Fresh b (c ∷ hooks)
    → Fresh c hooks
    → bad ≢ 0
    → (nf_ipaddr_show_exit a (
          nf_local_out_exit b (
            my_nfqueue_exit c
              (nf_ipaddr_show_init a 0 (nf_local_out_init b 0 (my_nfqueue_init c 0 hooks).1).1).1))
        ≡ hooks)
      × ((nf_ipaddr_show_init a bad hooks).1 ≡ hooks)
      × ((nf_local_out_init b bad hooks).1 ≡ hooks)
      × ((my_nfqueue_init c bad hooks).1 ≡ hooks)
unfolding nf_ipaddr_show_exit nf_local_out_exit my_nfqueue_exit nf_ipaddr_show_init
    nf_local_out_init my_nfqueue_init
exits-inits a b c bad hooks fa fb fc fails = (
  ground (
    arith,
    fa.0,
    fa.1.0,
    fb.0,
    dropped-Fresh a hooks fa.1.1,
    dropped-Fresh b hooks fb.1,
    dropped-Fresh c hooks fc,
  ),
  ground (arith, fails),
  ground (arith, fails),
  ground (arith, fails),
)
