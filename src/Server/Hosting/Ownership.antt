-- ===== src/Server/Hosting/Ownership.antt =====
-- noray/src/hosts/host.commands.mjs: the 'close' listeners of a socket are those of its hosts.
use bevy_noray.Base.{
  ◌∙◌, sym, nat_eq, ◌==◌, ◌≡◌, refl, inl, inr, Bool-cases, true, false, not, Option, none, some,
  Option-cases, List, [], ◌∷◌, Text, text_eq, text_beq_iff, lookup, insert, has, elem, select,
  lookup-insert, arith, if◌then◌else◌, Keeps,
}
use bevy_noray.Relay.Handler.{Listeners}
use bevy_noray.Hosts.{HostEntity, Hosts, TcpSocket, modify_host}
use bevy_noray.Server.{hosts_dec, Server}
use bevy_noray.Server.Frame.{IsStable, KeepsIdentity}
use bevy_noray.Server.Hosting.{remove, remove_hosts, register_host, owned, disconnect}
use bevy_noray.Server.Hosting.Laws.{registered, register_host_cases, disconnect_removes}

-- The socket that a host came over.
unfoldable pub socket_at : Text → Hosts → Option TcpSocket
socket_at k hosts = elim (lookup k hosts) [ none ↦ none | some h ↦ some h.socket ]

-- What is left of a host when a socket closes.
abbrev pub unless_from : TcpSocket → Option HostEntity → Option HostEntity
unless_from socket none = none
unless_from socket (some h) = if h.socket == socket then none else some h

-- A socket's closing will remove the hosts that came over it, and no others.
pub record IsOwned (hosts : Hosts) (closing : List (TcpSocket × Text)) : Type 0 where
  pub closes :
      (k : Text) (socket : TcpSocket)
      → socket_at k hosts ≡ some socket
      → elem k (owned socket closing) ≡ true
  pub comes :
      (k : Text) (socket : TcpSocket)
      → elem k (owned socket closing) ≡ true
      → socket_at k hosts ≡ some socket

pub empty-IsOwned : IsOwned [] []
unfolding socket_at owned lookup
empty-IsOwned = record {
  closes = λ k socket e. absurd (ground arith);
  comes = λ k socket e. absurd (ground arith);
}

-- A write to another field of a host.
socket_at-modify_host :
    (oid : Text) (f : HostEntity → HostEntity) (hosts : Hosts) (k : Text)
    → KeepsIdentity f
    → socket_at k (modify_host oid f hosts) ≡ socket_at k hosts
unfolding modify_host socket_at
socket_at-modify_host oid f hosts k same = elim (Option-cases (lookup oid hosts)) [
  | inl n ↦ rw (n, modify_host) refl
  | inr (h, e) ↦
      rw (e, modify_host)
        (ground (arith, text_beq_iff oid k, lookup-insert oid k (f h) hosts, same h))
]

modify-IsOwned :
    (oid : Text) (f : HostEntity → HostEntity) (hosts : Hosts) (closing : List (TcpSocket × Text))
    → KeepsIdentity f
    → IsOwned hosts closing
    → IsOwned (modify_host oid f hosts) closing
modify-IsOwned oid f hosts closing same v = record {
  closes = λ k socket e. v.closes k socket (sym (socket_at-modify_host oid f hosts k same) ∙ e);
  comes = λ k socket e. socket_at-modify_host oid f hosts k same ∙ v.comes k socket e;
}

-- A host under a new identifier.
insert-IsOwned :
    (oid : Text) (h : HostEntity) (hosts : Hosts) (closing : List (TcpSocket × Text))
    → has oid hosts ≡ false
    → IsOwned hosts closing
    → IsOwned (insert oid h hosts) ((h.socket, oid) ∷ closing)
unfolding socket_at owned
insert-IsOwned oid h hosts closing fresh v = record {
  closes = λ k socket e. ground (
    arith,
    lookup-insert oid k h hosts,
    text_beq_iff oid k,
    text_beq_iff k oid,
    v.closes k socket,
  );
  comes = λ k socket e. elim (Bool-cases (text_eq.beq oid k)) [
    | inl same ↦ elim (Bool-cases (h.socket == socket)) [
      | inl mine ↦ ground (arith, lookup-insert oid k h hosts, text_beq_iff oid k)
      | inr his ↦
          let old = v.comes k socket (ground (arith)) in
          absurd (ground (arith, text_beq_iff oid k, old))
    ]
    | inr other ↦
        let old = v.comes k socket (ground (arith, text_beq_iff oid k, text_beq_iff k oid)) in
        ground (arith, lookup-insert oid k h hosts, old)
  ];
}

owned-select :
    (mine other : TcpSocket) (l : List (TcpSocket × Text))
    → owned mine (select (λ c. not (c.0 == other)) l) ≡ (if mine == other then [] else owned mine l)
unfolding owned
owned-select mine other [] = ground arith
owned-select mine other ((k, oid) ∷ l) = ground (arith, owned-select mine other l)

module _ {L : Type 0} where
  abbrev pub Owned : Server L → Type 0
  Owned s = IsOwned s.hosts s.closing

  pub Owned-IsStable : (ls : Listeners L) → IsStable ls Owned
  Owned-IsStable ls = record {
    output_free = λ o s v. v;
    writing = λ oid f same s v. modify-IsOwned oid f s.hosts s.closing same v;
    creating = λ now r s v. v;
  }

  pub register_host-Owned :
      (oid pid : Text) (socket : TcpSocket) → Keeps Owned (register_host oid pid socket)
  register_host-Owned oid pid socket s v = elim (register_host_cases oid pid socket s) [
    | inl (u, e) ↦ rw e v
    | inr (f, e) ↦ rw e (insert-IsOwned oid (registered oid pid socket) s.hosts s.closing f v)
  ]

  remove_hosts-closing :
      (oids : List Text) (s : Server L) → (remove_hosts oids s).closing ≡ s.closing
  unfolding remove_hosts
  remove_hosts-closing [] s = refl
  remove_hosts-closing (oid ∷ oids) s =
      remove_hosts-closing oids
        (record s { hosts = (remove oid s.hosts).1; output = hosts_dec ∷ s.output })

  closing-disconnect :
      (socket : TcpSocket) (s : Server L)
      → (disconnect socket s).closing ≡ select (λ c. not (c.0 == socket)) s.closing
  unfolding disconnect
  closing-disconnect socket s =
      remove_hosts-closing (owned socket s.closing)
        (record s { closing = select (λ c. not (c.0 == socket)) s.closing })

  -- When a socket closes, exactly the hosts that came over it are gone.
  pub disconnect-lookup :
      (socket : TcpSocket) (s : Server L) (k : Text)
      → Owned s
      → lookup k (disconnect socket s).hosts ≡ unless_from socket (lookup k s.hosts)
  unfolding socket_at
  disconnect-lookup socket s k v =
      disconnect_removes socket s k ∙ elim (Option-cases (lookup k s.hosts)) [
        | inl n ↦ ground (arith, n)
        | inr (h, e) ↦ elim (Bool-cases (h.socket == socket)) [
          | inl mine ↦ ground (arith, e, v.closes k socket)
          | inr other ↦ ground (arith, e, v.comes k socket)
        ]
      ]

  pub disconnect-Owned : (socket : TcpSocket) (s : Server L) → Owned s → Owned (disconnect socket s)
  unfolding socket_at
  disconnect-Owned socket s v = record {
    closes = λ k mine e.
        rw (closing-disconnect socket s, owned-select mine socket s.closing)
          (ground (arith, disconnect-lookup socket s k v, v.closes k mine));
    comes = λ k mine e.
        let e' = rw (closing-disconnect socket s, owned-select mine socket s.closing) at e in
        elim (Bool-cases (mine == socket)) [
          | inl gone ↦ absurd (ground (arith, e'))
          | inr other ↦
              let old = v.comes k mine (ground (arith, e')) in
              ground (arith, disconnect-lookup socket s k v, old)
        ];
  }
