-- ===== src/Lib.antt =====
-- A model of the Deskflow client for the ESP32-P4: the firmware joins a Barrier/Deskflow server as
-- a client and plays its keyboard and mouse events as a USB HID device.
--
-- The parts, and how they interact. The network task connects over TLS (main/network), waits
-- between failed attempts as main/network/reconnect.c says, reads length-prefixed frames and takes
-- them apart with main/barrier/barrier_packet.c, which stands on main/barrier/barrier_io.c. Of each
-- packet it calls a function of main/tusb/tusb_actuator.c: pointer positions are written directly,
-- everything else goes through a FreeRTOS queue to hid_task, which keeps the pressed keys, turns
-- Deskflow keys into HID usages with main/tusb/keycodes.c, and hands reports to TinyUSB, whose
-- state main/tusb/tusb_device.c tracks. The server, the screen and the certificates come from files
-- on a USB stick, which main/config/config.c reads and the web pages change: a change sets a bit of
-- the event group in which main/network/eth_network.c also notes the link and the address, and on
-- which the connection task reconnects. Log output also goes to a ring of main/web/web_server.c, and a
-- web socket connects a browser to the UART of main/grove. main/main.c starts the parts and shows the
-- network and the USB side by the light of main/led.
--
-- Where what is modelled. Names are the source's, without a leading underscore.
-- - Prelude: arrays as lists, comparisons, fixed-width words, bit operations and signed numbers.
-- - Esp: ESP-IDF's status codes, and results of code that reads memory: a value, an error code, or
--   a read outside the array.
-- - Io: main/barrier/barrier_io.c.
-- - Packet: main/barrier/barrier_packet.h and .c. Code has the two code functions, Parse has
--   packet_parse, Serialize has packet_serialize; Wire states the frame format on its own; Emit,
--   RoundTrip, Bounds, Names and Limits relate the two.
-- - Reconnect: main/network/reconnect.c, with the delays in Reconnect/Backoff.
-- - Keycodes: main/tusb/keycodes.c, with the tables in Keycodes/Tables.
-- - Actuator: main/tusb/tusb_actuator.h (the commands and the shared state). Queue and Position
--   have what the network task calls, Keys, Report and Hid what hid_task does, Usb the sending
--   functions with the flags of main/tusb/tusb_device.c. Delivery, Pointer, Sending, Steps,
--   Progress and Release have their theorems; System has the steps of both tasks in any order.
--   Descriptor has the mouse's part of the report descriptor, by which Decoded reads the reports.
-- - Config: main/config/config.c. The root saves and loads the settings file, Text has what it uses of
--   fprintf and fscanf, Certs the certificate buffers; Numbers, Fields, RoundTrip, Overflow, Scanned
--   and Loaded, and Strip, Pem and Upload under Certs, have the theorems.
-- - Tls: main/network/tls_client.c, with the write loop in Tls/Write and the sessions that are opened
--   and destroyed in Tls/Sessions.
-- - Client: main/barrier/barrier_client.c. The root has the packet handler, Read the reading loops
--   and read_packet, Hello the handshake, Wait and Task the rounds of the connection task; Framing,
--   Dialogue, Greeting, Rounds, Patient, Ended, Apart, Session and Change have their theorems.
--   What send_packet gets from tls_client_write is a function in the input of a round, and what the
--   calls of a connection do to the TLS client is a function in the input of the outer loop.
-- - Client/Lifecycle: creating, starting, stopping and destroying a client of
--   main/barrier/barrier_client.c, with the functions that start and stop hid_task and the handle of it
--   that main/tusb/tusb_device.c keeps; Released has the theorems.
-- - Eth: main/network/eth_network.c: what is created and released (Resources), the events and the
--   event group (Events), the VLAN registers (Vlan).
-- - Msc: main/usb_host/usb_host_msc.c: the slots (Slots), starting (Starting), the task's loop and its end
--   (Task, Emptied) and stopping (Stopped).
-- - Grove: main/grove/grove_uart.c. Led: main/led/led_rgb.c. Button: main/button_reset.c.
-- - Web: the requests of main/web/web_server.c. The root has the one that changes the settings, with what
--   a posted text can change in Posted and its way to the connection task in Applied; Current and
--   Format have the one that reads them, Serial those of the UART, Certificates the rest, Routes which
--   handler answers which request. Printing has snprintf; Searched, Keys, Restored, Sent, SerialText,
--   Uploaded and Escaped have the theorems; Escaped has what JSON.stringify of main/web/settings_page.h
--   makes of the certificates.
-- - Bridge: the web socket of main/web/web_server.c for the UART, as steps of the server's thread and the
--   sender tasks in any order, with its memory in Owned and its tasks in Senders.
-- - Main: main/main.c: the start (Started), what of a settings request is there at the next one (Posted),
--   and the loop with the status light (Light).
-- - Log: the log ring of main/web/web_server.c with its web socket, and esp_log_ws_redirect of
--   main/main.c; Ring, Queue, Clients and Overread have their theorems. Overlap has two tasks that push at
--   the same time.
--
-- Conventions. Numbers are natural numbers with each C type's wrap-around written out; the signed
-- types are integers. A buffer is the list of the bytes from its address on. esp_random(), the
-- clock, tud_mounted() and the outcome of a weak compare-and-swap are arguments. The FreeRTOS queue
-- is the record Actuator.CmdQueue with what its manual promises; a list is one. The answers of
-- tud_hid_report are a list in the USB state; a function that waits for TinyUSB recurs on that
-- list, and its result is missing when the list runs out while it waits; a function that reads from
-- the connection recurs on the list of what tls_client_read answers in the same way. The flush loop of
-- actuator_queue_disconnected runs on fuel, of which one more than the queued commands is enough.
--
-- What the connection task meets (the configuration, the handshake's result, the packets and
-- errors of the packet loop, what other tasks do in between) is an input of each of its rounds, so
-- the rounds run on the list of these inputs; a packet loop that goes on behind the last of them has
-- no result, and ends at the latest with a round that stops the client or breaks the connection. The
-- clean-up runs on the fuel of that flush loop. The
-- write loop of the TLS client recurs on the list of what esp_tls answers, of which 30 for each byte
-- are enough. The loops over files and buffers recur on their lengths.
--
-- Not modelled: logging; the text of the web pages; the set-up of the LED, the UART's line and TinyUSB,
-- which are calls of ESP-IDF drivers with constants; the USB descriptors but the mouse's; writes of the
-- network task while hid_task waits inside a command; calls of the log ring that overlap, but for two
-- pushes of one byte.
mod Prelude
pub mod Esp
pub mod Io
pub mod Packet
pub mod Reconnect
pub mod Keycodes
pub mod Actuator
pub mod Client
pub mod Log
pub mod Config
pub mod Tls
pub mod Eth
pub mod Msc
pub mod Web
pub mod Grove
pub mod Bridge
pub mod Led
pub mod Main
pub mod Button
