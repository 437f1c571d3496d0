-- ===== src/Options/Codes.antt =====
-- The numbers of the `int` options (src/util/constants.hpp).
use serverlink.Prelude.{
  ℕ, ◌≡◌, refl, sym, ap, ◌∙◌, ◌==◌, if◌then◌else◌, Option, none, some, bytes_eq,
}
use serverlink.Options.{
  IntOption, code, sndhwm, rcvhwm, sndbuf, rcvbuf, tos, linger, connect_timeout, tcp_maxrt,
  reconnect_stop, reconnect_ivl, reconnect_ivl_max, backlog, rcvtimeo, sndtimeo, tcp_keepalive,
  tcp_keepalive_cnt, tcp_keepalive_idle, tcp_keepalive_intvl, immediate, handshake_ivl,
  heartbeat_ivl, heartbeat_timeout, use_fd, in_batch_size, out_batch_size, busy_poll, priority,
  router_notify,
}

-- A code belongs to one option.
of_code : ℕ → Option IntOption
of_code n =
    if n == 23
    then some sndhwm
    else if n == 24
    then some rcvhwm
    else if n == 11
    then some sndbuf
    else if n == 12
    then some rcvbuf
    else if n == 57
    then some tos
    else if n == 17
    then some linger
    else if n == 79
    then some connect_timeout
    else if n == 80
    then some tcp_maxrt
    else if n == 81
    then some reconnect_stop
    else if n == 18
    then some reconnect_ivl
    else if n == 21
    then some reconnect_ivl_max
    else if n == 19
    then some backlog
    else if n == 27
    then some rcvtimeo
    else if n == 28
    then some sndtimeo
    else if n == 34
    then some tcp_keepalive
    else if n == 35
    then some tcp_keepalive_cnt
    else if n == 36
    then some tcp_keepalive_idle
    else if n == 37
    then some tcp_keepalive_intvl
    else if n == 39
    then some immediate
    else if n == 66
    then some handshake_ivl
    else if n == 75
    then some heartbeat_ivl
    else if n == 77
    then some heartbeat_timeout
    else if n == 89
    then some use_fd
    else if n == 101
    then some in_batch_size
    else if n == 102
    then some out_batch_size
    else if n == 103
    then some busy_poll
    else if n == 112
    then some priority
    else if n == 97
    then some router_notify
    else none

of_code_lem : (o : IntOption) → of_code (code o) ≡ some o
unfolding of_code code
of_code_lem sndhwm = refl
of_code_lem rcvhwm = refl
of_code_lem sndbuf = refl
of_code_lem rcvbuf = refl
of_code_lem tos = refl
of_code_lem linger = refl
of_code_lem connect_timeout = refl
of_code_lem tcp_maxrt = refl
of_code_lem reconnect_stop = refl
of_code_lem reconnect_ivl = refl
of_code_lem reconnect_ivl_max = refl
of_code_lem backlog = refl
of_code_lem rcvtimeo = refl
of_code_lem sndtimeo = refl
of_code_lem tcp_keepalive = refl
of_code_lem tcp_keepalive_cnt = refl
of_code_lem tcp_keepalive_idle = refl
of_code_lem tcp_keepalive_intvl = refl
of_code_lem immediate = refl
of_code_lem handshake_ivl = refl
of_code_lem heartbeat_ivl = refl
of_code_lem heartbeat_timeout = refl
of_code_lem use_fd = refl
of_code_lem in_batch_size = refl
of_code_lem out_batch_size = refl
of_code_lem busy_poll = refl
of_code_lem priority = refl
of_code_lem router_notify = refl

abbrev or_first : Option IntOption → IntOption
or_first none = sndhwm
or_first (some o) = o

pub code_inj : (o p : IntOption) → code o ≡ code p → o ≡ p
code_inj o p e = ap or_first (sym (of_code_lem o) ∙ ap of_code e ∙ of_code_lem p)
