-- ===== src/Central/Mgmt/Atomic.antt =====
-- A request for a manual peer takes effect as a whole or not at all.
use tailscale_metrics_discov.Common.{ℕ, ◌≡◌, ◌⊎◌, Bool, true, arith, if◌then◌else◌}
use tailscale_metrics_discov.Common.Text.{Text}
use tailscale_metrics_discov.Config.{CentralConfig}
use tailscale_metrics_discov.Agent.Mgmt.{Writes}
use tailscale_metrics_discov.Central.Collector.{remove_manual_peer}
use tailscale_metrics_discov.Central.Server.{Server, save_central_config}
use tailscale_metrics_discov.Central.Mgmt.{
  Request, PeerRequest, peer_add, peer_remove, add_peer, remove_peer, serve_peer,
}

-- The configuration that a restart would find.
abbrev pub persisted : Server → CentralConfig
persisted s = if s.has_file then s.file else s.cfg

-- The same configuration, in memory and in the file, and the same collector.
abbrev pub Untouched : Server → Server → Type 0
Untouched s t = (t.cfg ≡ s.cfg) × (persisted t ≡ persisted s) × (t.col ≡ s.col)

abbrev Atomic : Server → Server × ℕ → Type 0
Atomic s (t, code) = (persisted t ≡ t.cfg) × ((code ≡ 200) ⊎ Untouched s t)

add_peer-Atomic :
    (writes : Bool) (req : PeerRequest) (s : Server)
    → persisted s ≡ s.cfg
    → Atomic s (add_peer writes req s)
unfolding add_peer save_central_config
add_peer-Atomic writes req s p = ground (arith, p)

remove_peer-Atomic :
    (w : Writes) (address : Text) (s : Server)
    → w.rollback ≡ true
    → persisted s ≡ s.cfg
    → Atomic s (remove_peer w address s)
unfolding remove_peer save_central_config remove_manual_peer
remove_peer-Atomic w address s r p = ground (arith, r, p)

-- Whatever a request asks of the manual peers, and whether or not the first write succeeds: if the
-- rollback can be written and memory and file agree before, then they agree after, and the request is
-- answered 200, or it leaves configuration, file and collector as they were.
pub serve_peer-Atomic :
    (w : Writes) (req : Request) (s : Server)
    → w.rollback ≡ true
    → persisted s ≡ s.cfg
    → (persisted (serve_peer w req s).0 ≡ (serve_peer w req s).0.cfg)
      × (((serve_peer w req s).1 ≡ 200) ⊎ Untouched s (serve_peer w req s).0)
unfolding serve_peer
serve_peer-Atomic w (peer_add req) s r p = add_peer-Atomic w.first req s p
serve_peer-Atomic w (peer_remove address) s r p = remove_peer-Atomic w address s r p
