-- ===== src/Lib.antt =====
-- Spread 5.0.1, the group communication toolkit under ProjetoFinal/spread/spread-src-5.0.1: a daemon
-- on every machine, and a library that clients link to reach the nearest daemon. The daemons of a
-- configuration form a ring. A token goes round; who holds it sends packets with numbers that grow
-- over the whole ring, and every daemon delivers to its clients in the order of these numbers.
--
-- The parts, paths below ProjetoFinal/spread/spread-src-5.0.1:
--   * Protocol (daemon/protocol.c, net_types.h, prot_body.h): the window of numbered packets.
--     Protocol/Types has the headers, the bits of a type and the state (`Packets`, `Up_queue`,
--     `Aru`, `My_aru`, `Highest_seq`, `Last_discarded`, `Last_delivered`); Protocol/Body the
--     fragments packed behind the first of a packet; Protocol/Window `Deliver_packet`,
--     `Deliver_reliable_packets`, `Deliver_agreed_packets`, `Discard_packets` outside of the
--     state EVS, and `Prot_handle_bcast` from the test whether the packet is new
--     (`handle_regular`). Protocol/Invariant states what holds between calls, Protocol/Moves
--     that each change of the state keeps it, Protocol/Delivery, Agreed, Discard and Receive
--     that each function does, Protocol/Runs that every sequence of calls does; Protocol/Total
--     is about the fatal alarms. Protocol/Token has the parts of `Prot_handle_token` that
--     decide whether a token is taken (`accept`, `admit`), follow its numbers and pass it on,
--     `Is_token_hold` and `Prot_token_hurry`; Protocol/Admission, Circle and Round are about them.
--     Protocol/Retrans has `Answer_retrans` and the token's new requests, Protocol/Requests is
--     about them; the token's body is the list of its requests in place of their bytes.
--     Protocol/Dispatch has the routing at the head of `Prot_handle_bcast`, `Handle_hurry`,
--     `Prot_new_message`, `Prot_handle_conf_reload` and `Prot_set_delivery_threshold`.
--     Protocol/Pack has how `Send_new_packets` fills a packet from the queue of messages, Protocol/Send
--     the loop around it, `Prot_queue_bcast` and `Prot_flush_bcast`; Protocol/Queue, Packing,
--     PackingTotal and Sending are about them. Protocol/Evs has `Discard_packets` in the state EVS,
--     Protocol/Remaining, BeforeSignal, AfterSignal, Transitional and TransitionalTotal are about it.
--   * Membership (daemon/membership.c): how the daemons agree on who belongs to the ring. Membership/Sets
--     has `Insert_member`, `Insert_rep`, the searches and the sorts, over the scan and the rounds of
--     Membership/Select; Sorting and Sorted are about the sorts, Beside and Reps about `Insert_rep`.
--     Membership/State has the variables, the `Shift_to_` functions and `Memb_token_loss`,
--     Membership/Handlers what each message and timer does in each state; calls of the event queue
--     and the network are a list of effects. Sound, Handled and Steps are about all sequences of
--     them, Loss about the loss of the token. Backoff has `Backoff_membership`, which gives the
--     window of Protocol back to the old ring. It uses the lookups of Configuration.
--   * Groups (daemon/groups.c, groups.h, sess_body.h): the groups of client sessions that each daemon
--     keeps on top of the ring. Groups/State has `GroupsList` with its groups, daemons and members,
--     `Gstate` and the messages to the sessions; Groups/Keyed the skip lists of stdutil as lists in
--     the order of iteration, in which the place of a new element is a parameter. Groups/Names has
--     `G_private_to_names`, Groups/Notices the membership messages, Groups/Handlers `G_handle_join`,
--     `G_handle_leave` and `G_handle_kill`, Groups/Shifts `G_handle_trans_memb` and
--     `G_handle_reg_memb` in GTRANS, Groups/Compare the comparisons. Groups/Valid states what holds
--     between calls. Ensure, Notified, Join and Joining are about a join, Mailboxes, Remains, Depart,
--     Killing and Leaving about the ways out, Runs about all sequences of them; Counts counts names,
--     VsMembers and VsSets are about the sets of a message, Alike, Losing, Eliminate, Settling and
--     Shrinking about the memberships. It uses the lookups of Configuration and `MembershipId` of
--     Protocol.
--   * FlowControl (daemon/flow_control.c): how many packets a daemon may send at a visit of the token;
--     its answer keeps the numbers of new packets within the window that Protocol has room for.
--   * Configuration (daemon/configuration.c, configuration.h): the lookups of processes, and the ring
--     that the token follows: leader, last and previous daemon.
--   * Scatp (libspread/scatp.c, scatp.h, sp.h): positions in a gather list of buffers, as clients use
--     them to walk through a message; Scatp/Layout and Scatp/Offset relate them to byte offsets.
--     Scatp/Copy has the copying functions, as the calls of `memcpy` that they make; the fuel of
--     `copy_loop` is the number of bytes, as each round copies one at least. Scatp/Addresses and
--     Copying are about them.
--   * Prelude: the shared names, Boolean tests, list and option lemmas, and integers.
--
-- Conventions. A fatal alarm (`SPLOG_FATAL`) ends the daemon; a function that may raise it returns
-- `none` then. An `int16` keeps its wrap-around where the source stores a wider value in one. Packet
-- numbers are natural numbers, so a run is shorter than 2^31 packets; the window has 8192 entries and
-- an entry is the number modulo 8192, as in the source. Buffer lengths and offsets in a scatter are
-- exact, so a scatter is smaller than 2^31 bytes. Headers inside of a body are read with the lower
-- byte first. The loop of `unpack` takes 4 bytes at least in each round; its fuel is the length of
-- the data and one more. Packets come from daemons of the same byte order, and the first fragment's
-- length is not negative. `trace` records the headers of delivered packets, for the theorems only.
-- A packet holds at most 1432 bytes and each round of `fill` but the first adds 4 at least, so its fuel
-- of 1434 is enough. A message has fewer than 2^15 fragments, so that the `int16` of an index does not
-- wrap. The window's copy of a packet that was sent keeps `token_round` 0, which nothing reads there.
--
-- The sessions are a parameter of Groups: a mailbox for each private name that has one, and which
-- of them take membership messages. Membership ids are 32-bit words there, and the counts of members
-- and of changes to a group natural numbers, so that there are fewer than 2^31 of each.
--
-- Not modelled. Of Protocol: the memberships that `Discard_packets` hands to the sessions and the
-- reload of the configuration at its end, the process index left in an empty entry when the sender
-- is unknown, the priorities of an accelerated ring, timers, and of a token's visit the sums of flow
-- control and the first visit in a new membership. Of Configuration: parsing, reloading and
-- printing. Of Membership (daemon/membership.c): `Memb_init`, the
-- tokens that form a membership (`Create_form1`, `Fill_form1`, `Read_form2`), whose calls are
-- effects, `Memb_transitional` and `Memb_regular`. Of Groups (groups.c): the
-- GROUPS messages that the leaders of synced sets exchange (`G_handle_groups`, `G_mess_to_groups`,
-- their buffers, and `G_handle_reg_memb` in GGT), `G_analize_groups`, the reload of the
-- configuration, the masks of protocol 4, and the log. Sessions (session.c), messages (message.c), access control (acm.c and auth-*.c), the network (network.c)
-- and the client library (libspread/sp.c, fl.c). Of the outside, stdutil and libspread-util are
-- libraries that the program calls. lex.yy.c and y.tab.c are generated. The Java programs beside it
-- are clients and exercises.
pub mod Prelude
pub mod Scatp
pub mod Configuration
pub mod Membership
pub mod Groups
pub mod Protocol
pub mod FlowControl
