-- ===== src/Options/Settings.antt =====
-- What is set is what is read, and within bounds (src/core/options.cpp).
use serverlink.Prelude.{
  ◌≤◌, ◌≡◌, ◌≢◌, ◌⊎◌, inl, inr, refl, ap, ◌∙◌, arith, ◌==◌, ==_iff, ltb, leb, Bool, true, false,
  ◌&&◌, some, Bytes, length, Bool-cases, bytes_eq,
}
use serverlink.Options.{
  IntOption, code, is_allowed, SocketOption, int_option, affinity, routing_id, maxmsgsize, ipv6,
  heartbeat_ttl, bindtodevice, loopback_fastpath, metadata, hello_msg, disconnect_msg, hiccup_msg,
  socket_type, other, Options, new_options, default_value, is_int, int_of, set_int, set_int_option,
  set_heartbeat_ttl, set_bool, device_len, setsockopt, getsockopt,
}
use serverlink.Options.Values.{is_bytes, int_bytes-int_of, set_bool_lem}
use serverlink.Options.Codes.{code_inj}
use serverlink.Options.Fields.{guarded, set_ttl_lem, set_metadata_lem, set_switch_lem}

-- The options that are read back as the bytes that were set.
abbrev pub is_exact : SocketOption → Bool
is_exact (int_option o) = true
is_exact affinity = true
is_exact routing_id = true
is_exact maxmsgsize = true
is_exact ipv6 = true
is_exact _ = false

-- The values that stay within what the code that uses them expects.
pub record IsValid (opts : Options) : Type 0 where
  pub ints : (o : IntOption) → (is_allowed o (opts.ints o) ≡ true) ⊎ (opts.ints o ≡ default_value o)
  pub identity : length opts.identity ≤ 255
  pub device : length opts.bound_device ≤ device_len
  pub ttl : opts.ttl ≤ 65535
  pub affinity : length opts.affinity_bytes ≡ 8
  pub maxmsgsize : length opts.maxmsgsize_bytes ≡ 8

new_options-IsValid : IsValid new_options
unfolding new_options
new_options-IsValid = record {
  ints = λ o. inr refl;
  identity = omega arith;
  device = omega arith;
  ttl = omega arith;
  affinity = refl;
  maxmsgsize = refl;
}

-- What setting an option leaves of the others.
pub record Sets (o : SocketOption) (b : Bytes) (opts opts' : Options) : Type 0 where
  pub valid : IsValid opts → IsValid opts'
  pub exact : is_exact o ≡ true → is_bytes b ≡ true → getsockopt o (length b) opts' ≡ some b
  pub others : (p : IntOption) → int_option p ≢ o → opts'.ints p ≡ opts.ints p

sets-int :
    (o : IntOption) (b : Bytes) (opts opts' : Options)
    → set_int_option o b opts ≡ some opts'
    → Sets (int_option o) b opts opts'
unfolding set_int_option getsockopt
sets-int o b opts opts' e =
    let (c, same) =
      guarded (is_int b && is_allowed o (int_of b)) (set_int o (int_of b) opts) opts' e in
    let four : length b ≡ 4 = ground (arith, c, ==_iff (length b) 4) in
    let fine : is_allowed o (int_of b) ≡ true = ground (arith, c) in
    rw same (record {
      valid = λ v. record {
        ints = λ p. elim (Bool-cases (code p == code o)) [
          | inl k ↦ rw k (
              inl (
                ap (λ q. is_allowed q (int_of b)) (code_inj p o ((==_iff (code p) (code o)).0 k))
                ∙ fine))
          | inr k ↦ rw k (v.ints p)
        ];
        identity = v.identity;
        device = v.device;
        ttl = v.ttl;
        affinity = v.affinity;
        maxmsgsize = v.maxmsgsize;
      };
      exact =
          λ x h. rw (four, (==_iff (code o) (code o)).1 refl) (ap some (int_bytes-int_of b h four));
      others = λ p n. elim (Bool-cases (code p == code o)) [
        | inl k ↦ absurd (n (ap int_option (code_inj p o ((==_iff (code p) (code o)).0 k))))
        | inr k ↦ rw k refl
      ];
    })

-- An option that is no `int` field: the fields that have bounds, and the byte string that is read back.
plain :
    (o : SocketOption) (b : Bytes) (opts opts' : Options)
    → opts'.ints ≡ opts.ints
    → (IsValid opts
        → (length opts'.identity ≤ 255)
          × (length opts'.bound_device ≤ device_len)
          × (opts'.ttl ≤ 65535)
          × (length opts'.affinity_bytes ≡ 8)
          × (length opts'.maxmsgsize_bytes ≡ 8))
    → (is_exact o ≡ true → is_bytes b ≡ true → getsockopt o (length b) opts' ≡ some b)
    → Sets o b opts opts'
plain o b opts opts' e f g = record {
  valid = λ v. record {
    ints = λ p. rw e (v.ints p);
    identity = (f v).0;
    device = (f v).1;
    ttl = (f v).2;
    affinity = (f v).3;
    maxmsgsize = (f v).4;
  };
  exact = g;
  others = λ p n. ap (λ i. i p) e;
}

kept :
    (opts : Options)
    → IsValid opts
    → (length opts.identity ≤ 255)
      × (length opts.bound_device ≤ device_len)
      × (opts.ttl ≤ 65535)
      × (length opts.affinity_bytes ≡ 8)
      × (length opts.maxmsgsize_bytes ≡ 8)
kept opts v = (v.identity, v.device, v.ttl, v.affinity, v.maxmsgsize)

-- Setting an option, when it does not fail, keeps every `int` option at its default or a value that it takes,
-- the routing id, the device, the time to live and the 64-bit values within their sizes, and the other `int`
-- options as they are; an `int` option, the affinity, the routing id, the limit for messages and the IPv6
-- switch are then read as the bytes that were set.
pub setsockopt_lem :
    (o : SocketOption) (b : Bytes) (opts opts' : Options)
    → setsockopt o b opts ≡ some opts'
    → Sets o b opts opts'
unfolding setsockopt getsockopt set_heartbeat_ttl
setsockopt_lem (int_option o) b opts opts' e = sets-int o b opts opts' e
setsockopt_lem affinity b opts opts' e =
    let (c, same) = guarded (length b == 8) (record opts { affinity_bytes = b }) opts' e in
    let size : length b ≡ 8 = (==_iff (length b) 8).0 c in
    rw same (
      plain affinity b opts _ refl (λ v. (v.identity, v.device, v.ttl, size, v.maxmsgsize))
        (λ x h. rw c refl))
setsockopt_lem routing_id b opts opts' e =
    let (c, same) =
      guarded (ltb 0 (length b) && leb (length b) 255) (record opts { identity = b }) opts' e in
    rw same (
      plain routing_id b opts _ refl
        (λ v. (ground (arith, c), v.device, v.ttl, v.affinity, v.maxmsgsize)) (λ x h. ground arith))
setsockopt_lem maxmsgsize b opts opts' e =
    let (c, same) = guarded (length b == 8) (record opts { maxmsgsize_bytes = b }) opts' e in
    let size : length b ≡ 8 = (==_iff (length b) 8).0 c in
    rw same (
      plain maxmsgsize b opts _ refl (λ v. (v.identity, v.device, v.ttl, v.affinity, size))
        (λ x h. rw c refl))
setsockopt_lem ipv6 b opts opts' e =
    let (v, k, same) =
      set_switch_lem (λ v. record opts { has_ipv6 = v }) (set_bool true b) opts' e in
    rw same (plain ipv6 b opts _ refl (kept opts) (λ x h. set_bool_lem b v k h))
setsockopt_lem heartbeat_ttl b opts opts' e =
    let (n, l, same) = set_ttl_lem (is_int b) (int_of b) opts opts' e in
    rw same (
      plain heartbeat_ttl b opts _ refl (λ v. (v.identity, v.device, l, v.affinity, v.maxmsgsize))
        (λ x h. cc))
setsockopt_lem bindtodevice b opts opts' e =
    let (c, same) =
      guarded (leb (length b) device_len) (record opts { bound_device = b }) opts' e in
    rw same (
      plain bindtodevice b opts _ refl
        (λ v. (v.identity, ground (arith, c), v.ttl, v.affinity, v.maxmsgsize)) (λ x h. cc))
setsockopt_lem loopback_fastpath b opts opts' e =
    let (v, k, same) =
      set_switch_lem (λ v. record opts { fastpath = v }) (set_bool false b) opts' e in
    rw same (plain loopback_fastpath b opts _ refl (kept opts) (λ x h. cc))
setsockopt_lem metadata b opts opts' e =
    let (m, same) = set_metadata_lem b opts opts' e in
    rw same (plain metadata b opts _ refl (kept opts) (λ x h. cc))
setsockopt_lem hello_msg b opts opts' e =
    rw (guarded true (record opts { hello = b }) opts' e).1
      (plain hello_msg b opts _ refl (kept opts) (λ x h. cc))
setsockopt_lem disconnect_msg b opts opts' e =
    rw (guarded true (record opts { disconnect = b }) opts' e).1
      (plain disconnect_msg b opts _ refl (kept opts) (λ x h. cc))
setsockopt_lem hiccup_msg b opts opts' e =
    rw (guarded true (record opts { hiccup = b }) opts' e).1
      (plain hiccup_msg b opts _ refl (kept opts) (λ x h. cc))
setsockopt_lem socket_type b opts opts' e = cc
setsockopt_lem other b opts opts' e = cc
