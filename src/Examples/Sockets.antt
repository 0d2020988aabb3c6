-- ===== src/Examples/Sockets.antt =====
-- The theorem on the HID socket: a refused connect, a report, a failed send and another report.
