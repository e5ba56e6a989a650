-- ===== src/Start/Protocols.antt =====
-- The protocols of the two servers that cmd/main.go configures.
use mailu_operator.Common.{String, Bool-cases, inl, inr, ◌≡◌, refl, List, [], ◌∷◌, if◌then◌else◌}
use mailu_operator.Start.Main.{Flags, TlsConfig, disable_http2, tls_opts, manager_options}

-- The options change a configuration one after the other, as controller-runtime says.
abbrev pub apply_tls_opts : List (TlsConfig → TlsConfig) → TlsConfig → TlsConfig
apply_tls_opts [] c = c
apply_tls_opts (opt ∷ opts) c = apply_tls_opts opts (opt c)

-- What both servers speak, whatever their configurations say before.
abbrev pub next_protos : Flags → TlsConfig → TlsConfig → List String × List String
next_protos flags c d =
    let o = manager_options flags in
    (
      (apply_tls_opts o.metrics.tls_opts c).next_protos,
      (apply_tls_opts o.webhook_server.tls_opts d).next_protos,
    )

-- Without the flag that enables HTTP/2, the metrics server and the webhook server both speak HTTP/1.1 alone,
-- whatever protocols their configurations had; with it, they speak the protocols that they had.
pub protocols_served :
    (flags : Flags) (c d : TlsConfig)
    → next_protos flags c d ≡ (
        if flags.enable_http2
        then (c.next_protos, d.next_protos)
        else ("http/1.1" ∷ [], "http/1.1" ∷ []))
unfolding manager_options tls_opts disable_http2
protocols_served flags c d = elim (Bool-cases flags.enable_http2) [
  | inl on ↦ rw on refl
  | inr off ↦ rw off refl
]
