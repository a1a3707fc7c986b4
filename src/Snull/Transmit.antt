-- ===== src/Snull/Transmit.antt =====
-- snull/snull.c:431-562: transmission, which loops a frame back to the twin device, and the
-- transmit timeout.
pub mod Told
pub mod Final
pub mod Frame
pub mod Regular
pub mod Armed
pub mod Loopback
pub mod Napi
pub mod Timeout
pub mod Twice
use linux_learn_demo_code.Base.{
  ℕ, ◌-◌, ◌%◌, Bool, true, false, ◌&&◌, not, some, List, ◌++◌, if◌then◌else◌, take, drop, set,
  get_or, replicate, length, ltb, ◌==◌, add_ulong, bit_xor,
}
use linux_learn_demo_code.Snull.Types.{
  Dev, other, overrun, Outcome, ok, fault, ◌>>=◌, World, Env, Skb, priv, put, store, log,
  set_stopped, netif_trans_update,
}
use linux_learn_demo_code.Snull.Buffers.{get_tx_buffer, enqueue_buf}
use linux_learn_demo_code.Snull.Receive.{interrupt}

-- sizeof(struct ethhdr) + sizeof(struct iphdr); ETH_ZLEN; ETH_DATA_LEN.
abbrev pub min_len : ℕ
min_len = 34

abbrev pub eth_zlen : ℕ
eth_zlen = 60

abbrev pub eth_data_len : ℕ
eth_data_len = 1500

-- `^= 1` on one byte.
pub flip : ℕ → List ℕ → List ℕ
flip i bytes = set bytes i (bit_xor (get_or bytes i 0) 1)

-- The IP header starts at byte 14, its checksum at 24, the third octets of the two addresses are the
-- bytes 28 and 32.
unfoldable pub rewrite_header : (List ℕ → ℕ → List ℕ) → List ℕ → List ℕ
unfolding flip
rewrite_header csum buf =
    let flipped = flip 32 (flip 28 buf) in
    let cleared = set (set flipped 24 0) 25 0 in
    let sum = csum (drop 14 cleared) (get_or cleared 14 0 % 16) in
    set (set cleared 24 (get_or sum 0 0)) 25 (get_or sum 1 0)

-- The store of the frame in the buffer that was taken from the pool.
fill : ℕ → List ℕ → ℕ → World → Outcome World
fill p buf len w =
    let k = w.packets p in
    if ltb eth_data_len len
    then fault overrun
    else ok (record w {
      packets =
          store w.packets p
            (record k { datalen = len; payload = take len buf ++ drop len k.payload });
    })

raise_rx : Dev → World → World
raise_rx d w =
    let v = priv w d in
    let s = v.status in put d (record v { status = record s { rx_intr = true } }) w

-- The fields of the transmitting device are written before its own interrupt.
begin_tx : Dev → List ℕ → ℕ → World → World
begin_tx d buf len w =
    let v = priv w d in
    let s = v.status in
    put d
      (record v { tx_packetlen = len; tx_packetdata = buf; status = record s { tx_intr = true } }) w

-- `lockup && ((priv->stats.tx_packets + 1) % lockup) == 0`.
abbrev pub locks_up : Env → Dev → World → Bool
locks_up k d w = not (k.lockup == 0) && (add_ulong (priv w d).stats.tx_packets 1 % k.lockup == 0)

-- The twin device is interrupted only while its receive interrupts are enabled.
unfoldable pub notify : Env → Dev → World → Outcome World
unfolding raise_rx
notify k dest w =
    if (priv w dest).rx_int_enabled
    then (do r ← interrupt k (some dest) (raise_rx dest w); ok r.1)
    else ok w

unfoldable pub finish_tx : Env → Dev → World → Outcome World
finish_tx k d w =
    if locks_up k d w then ok (set_stopped d true w) else do r ← interrupt k (some d) w; ok r.1

-- `snull_hw_tx`.
unfoldable pub hw_tx : Env → List ℕ → ℕ → Dev → World → Outcome World
unfolding fill begin_tx
hw_tx k buf len d w = if ltb len min_len then ok w else do
  let frame = rewrite_header k.ip_fast_csum buf
  let dest = other d
  g ← get_tx_buffer d w
  w₁ ← fill g.0 frame len g.1
  w₂ ← enqueue_buf dest g.0 w₁
  w₃ ← notify k dest w₂
  finish_tx k d (begin_tx d frame len w₃)

-- What `snull_tx` hands to `snull_hw_tx`: a short frame is padded with zeros.
pub pad : List ℕ → List ℕ
pad bytes =
    if ltb (length bytes) eth_zlen then bytes ++ replicate (eth_zlen - length bytes) 0 else bytes

abbrev pub remember : Skb → Dev → World → World
remember skb d w = let v = priv w d in put d (record v { skb = some skb.id }) w

-- `snull_tx`.
unfoldable pub tx : Env → Skb → Dev → World → Outcome World
tx k skb d w =
    let len = if ltb (length skb.bytes) eth_zlen then eth_zlen else length skb.bytes in
    hw_tx k (pad skb.bytes) len d (remember skb d (log (netif_trans_update d) w))

count_error : Dev → World → World
count_error d w =
    let v = priv w d in
    let s = v.stats in
    put d (record v { stats = record s { tx_errors = add_ulong s.tx_errors 1 } }) w

timed_out : Dev → World → World
timed_out d w =
    let v = priv w d in put d (record v { status = record { rx_intr = false; tx_intr = true } }) w

-- `snull_tx_timeout`.
unfoldable pub tx_timeout : Env → Dev → World → Outcome World
unfolding count_error timed_out
tx_timeout k d w = do
  r ← interrupt k (some d) (timed_out d w)
  ok (set_stopped d false (count_error d r.1))
