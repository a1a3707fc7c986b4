-- ===== src/Snull/Transmit/Armed.antt =====
-- `snull_tx` before the hardware: the padding, and the skb that is remembered.
use linux_learn_demo_code.Base.{
  take, drop, take-length, take-append, ◌++◌, ℕ, ◌-◌, ◌≤◌, Option, some, List, length, ltb,
  if◌then◌else◌, ◌≡◌, refl, arith, length-append, length-replicate, replicate,
}
use linux_learn_demo_code.Snull.Types.{
  Dev, sn0, sn1, World, Skb, NetDevice, priv, log, netif_trans_update,
}
use linux_learn_demo_code.Snull.Chains.{Loc, pool, queue, head}
use linux_learn_demo_code.Snull.Buffers.Refine.{Keeps}
use linux_learn_demo_code.Snull.Transmit.{pad, remember, eth_data_len, eth_zlen}

-- The first `len` bytes of a buffer that was filled with a frame of that length are the frame.
pub take-filled :
    (frame old : List ℕ) (len : ℕ)
    → length frame ≡ len
    → take len (take len frame ++ drop len old) ≡ frame
take-filled frame old len e =
    rw (← e, take-length frame) (take-append frame (drop (length frame) old))

abbrev pub armed : Skb → Dev → World → World
armed skb d w = remember skb d (log (netif_trans_update d) w)

pub len-pad :
    (bytes : List ℕ)
    → (if ltb (length bytes) eth_zlen then eth_zlen else length bytes) ≡ length (pad bytes)
unfolding pad
len-pad bytes = ground (
  arith,
  length-append bytes (replicate (eth_zlen - length bytes) 0),
  length-replicate {A = ℕ} (eth_zlen - length bytes) 0,
)

pub pad-le : (bytes : List ℕ) → length bytes ≤ eth_data_len → length (pad bytes) ≤ eth_data_len
pad-le bytes h = ground (arith, len-pad bytes)

-- Remembering the skb changes no other field.
pub armed-keeps :
    {A : Type 0} (skb : Skb) (d : Dev) (w : World) (f : NetDevice → A)
    → ((v : NetDevice) (s : Option ℕ) → f (record v { skb = s }) ≡ f v)
    → (e : Dev) → f (priv (armed skb d w) e) ≡ f (priv w e)
armed-keeps skb sn0 w f same sn0 = same w.dev0 (some skb.id)
armed-keeps skb sn0 w f same sn1 = refl
armed-keeps skb sn1 w f same sn0 = refl
armed-keeps skb sn1 w f same sn1 = same w.dev1 (some skb.id)

pub armed-packets : (skb : Skb) (d : Dev) (w : World) → (armed skb d w).packets ≡ w.packets
armed-packets skb sn0 w = refl
armed-packets skb sn1 w = refl

pub armed-allocs : (skb : Skb) (d : Dev) (w : World) → (armed skb d w).allocs ≡ w.allocs
armed-allocs skb sn0 w = refl
armed-allocs skb sn1 w = refl

armed-heads : (skb : Skb) (d : Dev) (w : World) (l : Loc) → head (armed skb d w) l ≡ head w l
armed-heads skb d w (pool e) = armed-keeps skb d w (λ v. v.ppool) (λ v s. refl) e
armed-heads skb d w (queue e) = armed-keeps skb d w (λ v. v.rx_queue) (λ v s. refl) e

pub armed-Keeps : (skb : Skb) (d : Dev) (w : World) → Keeps w (armed skb d w)
armed-Keeps skb d w = record {
  packets = armed-packets skb d w;
  heads = armed-heads skb d w;
  locks = armed-keeps skb d w (λ v. v.locked) (λ v s. refl);
}
