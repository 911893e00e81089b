-- ===== src/Tests/Loops.antt =====
-- Runs of the loops, and of what is printed of a packet.
use netdump.Base.{
  ℕ, ◌+◌, ◌*◌, ◌≤◌, ◌%◌, ◌≡◌, refl, arith, true, false, Option, none, some, List, [], ◌∷◌, length,
}
use netdump.Base.Text.{codes}
use netdump.Bpf.{Instruction}
use netdump.Core.{SlicedPacket, NetSlice, TransportSlice, IpAddr}
use netdump.Args.{Args}
use netdump.Output.Stamp.{PktCtx, show_time, show_delta, show_clock}
use netdump.Output.Addr.{show_ip}
use netdump.Output.Packets.{print_packet, hex_bytes_per_line}
use netdump.Output.Clock.{length-show_clock}
use netdump.Output.Columns.{hex_bytes_per_line-fits}
use netdump.Capture.Loop.{
  PcapPacket, idle, Received, received, pcap_packet_to_packet, read_loop, show_read,
}
use netdump.Capture.Select.{Adds, up_to, accepted, before_failure, read_loop-Adds}
use netdump.Capture.Times.{show_read-untimed, show_delta-sign_lost}

abbrev pub two_to_file : Args
two_to_file = record {
  interface = none;
  list_interfaces = false;
  no_checksum_verify = false;
  absolute_tcp_seq = false;
  line_buffered = false;
  filter = "tcp" ∷ "dst port 80 " ∷ [];
  count = some 2;
  write = true;
  snaplen = 0;
  no_promiscuous = false;
  link_header = false;
  ascii = false;
  quiet = false;
  verbose = 0;
  no_resolve = 0;
  dump_bpf = false;
  userspace_filter = false;
  hex = 0;
  hex_ascii = 0;
  timestamp_format = 0;
  buffer_size = none;
  packet_number = false;
  print = false;
  direction = none;
  block_size_kib = 1024;
  block_nr = 64;
  frame_size = 2048;
  retire_tov_ms = 100;
}

abbrev to_terminal : Args
to_terminal = record two_to_file { write = false }

-- From port 80 of 1.2.3.4 to port 4660 of 5.6.7.8.
abbrev pub web_reply : List ℕ → Option SlicedPacket
web_reply bytes = some (record {
  link = some 0x0800;
  net = some (NetSlice.ipv4 6 0x01020304 0x05060708);
  transport = some (TransportSlice.tcp 80 4660);
})

abbrev pub never : List PcapPacket → Option (List ℕ)
never ps = none

abbrev pub short : ℕ → PcapPacket
short b = record { secs = 3661; nanos = 5000; orig_len = 60; bytes = b ∷ [] }

-- Accepts a packet whose first byte is 7.
abbrev seven : List Instruction
seven =
    record { code = 0x30; jt = 0; jf = 0; k = 0 }
    ∷ record { code = 0x15; jt = 0; jf = 1; k = 7 }
    ∷ record { code = 6; jt = 0; jf = 0; k = 1 }
    ∷ record { code = 6; jt = 0; jf = 0; k = 0 }
    ∷ []

print_packet-web :
    (print_packet web_reply 80 to_terminal (pcap_packet_to_packet (short 7) 0) idle.ctx).0
    ≡ codes "01:01:01.000005 1.2.3.4.http > 5.6.7.8.4660 tcp len=1\n"
unfolding print_packet show_time netdump.Output.Addr.format_addr netdump.Output.Names.to_string
print_packet-web = refl

show_ip_short : show_ip (IpAddr.v6 0x20010db8000000000000000000000001) ≡ codes "2001:db8::1"
show_ip_short = refl

show_delta_negative : show_delta (10, 0) (12, 500_000) ≡ codes "-02.500000"
unfolding show_delta netdump.Output.Stamp.delta_text
show_delta_negative = refl

abbrev pub file : List (Received PcapPacket (List ℕ))
file = received (short 7) ∷ received (short 8) ∷ received (short 7) ∷ received (short 7) ∷ []

read_loop-Adds_example :
    Adds idle
      (up_to (some 2) 0 (accepted (some seven) (before_failure file)))
      (read_loop web_reply 80 never two_to_file (some seven) file idle)
read_loop-Adds_example =
    read_loop-Adds web_reply 80 never two_to_file (some seven) refl (λ ps. refl) file idle

two_accepted :
    up_to (some 2) 0 (accepted (some seven) (before_failure file)) ≡ short 7 ∷ short 7 ∷ []
unfolding netdump.Vm.exec netdump.Vm.read_u8
two_accepted = refl

abbrev since_first : Args
since_first = record to_terminal { timestamp_format = 5 }

show_read-untimed_example :
    (show_read web_reply 80 never since_first (some seven) (short 7) idle).output
    ≡ (show_read web_reply 80 never since_first
        (some seven)
        (record (short 7) { secs = 9; nanos = 77 })
        idle).output
show_read-untimed_example =
    show_read-untimed web_reply 80 never since_first (some seven) refl (short 7) 9 77 idle

show_delta-sign_lost_example : show_delta (9, 900_000) (10, 100) ≡ show_delta (10, 100) (9, 900_000)
show_delta-sign_lost_example =
    show_delta-sign_lost (9, 900_000) (10, 100) (omega arith) (omega arith)

hex_bytes_per_line-fits_example :
    (hex_bytes_per_line 140 % 16 ≡ 0)
    × (16 ≤ hex_bytes_per_line 140)
    × (hex_bytes_per_line 140 ≤ 64)
    × (10 + 3 * hex_bytes_per_line 140 ≤ 140)
hex_bytes_per_line-fits_example = hex_bytes_per_line-fits 140 (omega arith)

length-show_clock_example : length (show_clock 1_700_000_000 42) ≡ 15
length-show_clock_example = length-show_clock 1_700_000_000 42 (omega arith)
