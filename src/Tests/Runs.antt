-- ===== src/Tests/Runs.antt =====
-- Runs over a file and over a socket, from the words of the command line on.
use netdump.Base.{ℕ, ◌==◌, if◌then◌else◌, true, false, ◌≡◌, refl, none, some, List, [], ◌∷◌, arith}
use netdump.Base.Text.{codes}
use netdump.Bpf.{ret_k}
use netdump.Args.{Args}
use netdump.Assembler
use netdump.Meaning.{matches}
use netdump.Ring.Block.{Block, packet_at}
use netdump.Ring.Reader.{Poll, wakes}
use netdump.Capture.Live.{passing, passes}
use netdump.Capture.Ends.{failure_in, EndsAs}
use netdump.Capture.Stream.{stream}
use netdump.Capture.Served.{results-stream}
use netdump.Capture.Sniff.{live_socket-Writes}
use netdump.Capture.Run.{interface_lines}
use netdump.Capture.Main.{exit_of}
use netdump.Core.{PacketMeta}
use netdump.Output.Stamp.{show_time}
use netdump.Output.ReadBack.{fields, stamp_of, stamp_of-show_time}
use netdump.Ring.Opened.{fresh_system}
use netdump.Capture.Loop.{packet_to_pcap}
use netdump.Capture.Socket.{live_socket}
use netdump.Capture.Results.{results}
use netdump.Capture.Alive.{means}
use netdump.Tests.Sockets.{two_packets, opened_socket, opened_socket-IsOpened}
use netdump.Capture.Loop.{Finish, idle}
use netdump.Capture.Select.{Adds, up_to, before_failure}
use netdump.Capture.Program.{ready, filter_expr, finished, dumped, run_file}
use netdump.Capture.Whole.{matched, run_file-Adds}
use netdump.Tests.Texts.{library, web_grammar, parsed_web, parse-web, parsed_web-emitted}
use netdump.Tests.Loops.{two_to_file, web_reply, never, file}

words : filter_expr none two_to_file.filter ≡ ready (some "tcp dst port 80")
words = refl

run_file-Adds_example :
    (f : Finish) × (run_file web_reply 80 never two_to_file library web_grammar none file
      ≡ finished f)
    × Adds idle (up_to (some 2) 0 (matched parsed_web (before_failure file))) f
run_file-Adds_example =
    run_file-Adds web_reply 80 never two_to_file library web_grammar none file words parse-web
      parsed_web-emitted refl refl (λ ps. refl)

abbrev from_eth0 : Args
from_eth0 = record two_to_file { interface = some (codes "eth0"); block_nr = 3 }

abbrev one_wake : List Poll
one_wake = wakes (two_packets ∷ []) ∷ []

-- A packet of TCP to port 80, with its Ethernet header at 80.
abbrev web_byte : ℕ → ℕ
web_byte i =
    if i == 92
    then 8
    else (if i == 94 then 0x45 else (if i == 103 then 6 else (if i == 117 then 80 else 0)))

abbrev web_block : Block
web_block = record two_packets {
  num_pkts = 1;
  header_at = λ offset. record {
    tp_next_offset = 0;
    tp_sec = 1;
    tp_nsec = 5;
    tp_snaplen = 54;
    tp_mac = 32;
  };
  byte_of = web_byte;
}

abbrev web_wake : List Poll
web_wake = wakes (web_block ∷ []) ∷ []

one_written :
    up_to (some 2) 0 (passing (means parsed_web from_eth0 []) (before_failure (stream 2 web_wake)))
    ≡ packet_to_pcap (packet_at 2 web_block 48) ∷ []
unfolding matches netdump.Vm.read_u16 netdump.Vm.read_u8 netdump.Ring.Block.packets_from
one_written = refl

abbrev shown_too : Args
shown_too = record from_eth0 { print = true }

results-stream_example : results 3 20 one_wake opened_socket ≡ stream 2 one_wake
results-stream_example =
    results-stream (fresh_system opened_socket) opened_socket-IsOpened 1 20 (omega arith) 3 one_wake
      ((refl, tt), tt) (omega arith, tt) (omega arith) (omega arith)

-- The packet of `web_block` comes from the address of zeros, here the interface's own.
abbrev own : List ℕ
own = 0 ∷ 0 ∷ 0 ∷ 0 ∷ 0 ∷ 0 ∷ []

abbrev outgoing_only : Args
outgoing_only = record two_to_file { direction = some (codes "out") }

live_socket-Writes_example :
    Adds idle
      (up_to
        (some 2)
        0
        (passing (passes none (some (codes "out")) true own) (before_failure (stream 2 web_wake))))
      (live_socket web_reply 80 never outgoing_only none own 3 20 web_wake opened_socket idle)
    × EndsAs
        (some 2)
        (failure_in (stream 2 web_wake))
        (live_socket web_reply 80 never outgoing_only none own 3 20 web_wake opened_socket idle)
live_socket-Writes_example =
    live_socket-Writes web_reply 80 never outgoing_only none own refl (λ ps. refl) true
      (fresh_system opened_socket) opened_socket-IsOpened refl 1 20 (omega arith) 3 web_wake idle
      ((refl, tt), tt) (omega arith, tt) (omega arith) (omega arith)

sent_out :
    passing (passes none (some (codes "out")) true own) (before_failure (stream 2 web_wake))
    ≡ packet_to_pcap (packet_at 2 web_block 48) ∷ []
unfolding netdump.Ring.Block.packets_from
sent_out = refl

sent_in :
    passing (passes none (some (codes "in")) true own) (before_failure (stream 2 web_wake)) ≡ []
unfolding netdump.Ring.Block.packets_from
sent_in = refl

-- The second of January 2024, at four minutes past three in the morning.
abbrev in_january : PacketMeta
in_january = record {
  ts_sec = 1_704_164_645;
  ts_usec = 6;
  ifindex = 2;
  cap_len = 60;
  orig_len = 60;
}

stamp_in_january : show_time 4 in_january idle.ctx ≡ codes "2024-01-02 03:04:05.000006"
unfolding show_time netdump.Output.Date.epoch_days_to_date netdump.Output.Date.year_loop
stamp_in_january = refl

stamp_of-show_time_example :
    stamp_of (fields 0 (show_time 4 in_january idle.ctx)) ≡ some (1_704_164_645, 6)
stamp_of-show_time_example = stamp_of-show_time in_january idle.ctx (omega arith) (omega arith)

up_and_down :
    interface_lines (
      record { name = codes "lo"; ifindex = 1; is_up = false }
      ∷ record { name = codes "eth0"; ifindex = 2; is_up = true }
      ∷ [])
    ≡ codes "1. lo\n2. eth0*\n"
up_and_down = refl

exit_dumped :
    exit_of (dumped (ret_k 1 ∷ []))
    ≡ some (record {
      status = 0;
      errors =
          codes
            "CBPF program (1 instructions):\n  0: Instruction { code: 6, jt: 0, jf: 0, k: 1 }\n";
    })
unfolding ret_k
exit_dumped = refl
